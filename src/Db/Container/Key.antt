-- ===== src/Db/Container/Key.antt =====
-- src/db.rs: `pragma_key_sql`, which puts a password into a PRAGMA as a SQL text.
use Prim.Native.Char.{Char, code}
use Prim.Native.String.{◌++◌}
use Prim.Native.String.append
use coffer_fs.Base.{
  ◌≡◌, refl, String, Bool, true, false, Option, none, some, ◌==◌, if◌then◌else◌, inl, inr,
  Bool-cases,
}

abbrev is_quote : Char → Bool
is_quote c = code c == 39

-- `value.replace('\'', "''")`
unfoldable pub escaped : String → String
escaped String.[] = String.[]
escaped (String.◌∷◌ c s) =
    let rest = escaped s in
    if is_quote c then String.◌∷◌ c (String.◌∷◌ c rest) else String.◌∷◌ c rest

unfoldable pub pragma_key_sql : String → String → String
unfolding escaped
pragma_key_sql pragma value = ("PRAGMA " ++ pragma ++ " = '") ++ (escaped value ++ "'")

abbrev before : Char → Option (String × String) → Option (String × String)
before c none = none
before c (some (text, rest)) = some (String.◌∷◌ c text, rest)

-- How SQLite reads a text behind its opening quote: a quote ends it, but two stand for one. The
-- flag says that a quote was just read.
unfoldable pub literal : Bool → String → Option (String × String)
literal false String.[] = none
literal true String.[] = some (String.[], String.[])
literal false (String.◌∷◌ c s) =
    let closed = literal true s in
    let rest = literal false s in if is_quote c then closed else before c rest
literal true (String.◌∷◌ c s) =
    let rest = literal false s in
    if is_quote c then before c rest else some (String.[], String.◌∷◌ c s)

literal-escaped : (v : String) → literal false (escaped v ++ "'") ≡ some (v, String.[])
unfolding literal escaped
literal-escaped String.[] = refl
literal-escaped (String.◌∷◌ c s) = elim (Bool-cases (is_quote c)) [
  | inl e ↦
      rw
        (
          e,
          append.cons c (String.◌∷◌ c (escaped s)) "'",
          append.cons c (escaped s) "'",
          e,
          literal-escaped s,
        )
        refl
  | inr e ↦ rw (e, append.cons c (escaped s) "'", e, literal-escaped s) refl
]

-- The PRAGMA is its name and one text: what SQLite reads behind the opening quote is the value,
-- whatever quotes it holds, and nothing is left behind the closing one.
pub pragma_key_sql-literal :
    (pragma value : String)
    → (body : String) × (pragma_key_sql pragma value ≡ ("PRAGMA " ++ pragma ++ " = '") ++ body)
      × (literal false body ≡ some (value, String.[]))
unfolding pragma_key_sql
pragma_key_sql-literal pragma value = (escaped value ++ "'", refl, literal-escaped value)
