-- ===== src/Json.antt =====
-- events.py: `canonical_json`. A Python value that it accepts is a `Value`; a `Decimal` has become
-- its text by then. `raw` is a string given by its code points. The result is the list of the code points that are hashed and stored.
use Prim.Native.String.{String, compare}
use Prim.Native.Nat.{Ordering}
use baen_economy_engine.Prelude.{
  ℕ, zero, suc, ◌+◌, ◌-◌, ◌/◌, ◌%◌, Bool, true, false, ◌||◌, ◌&&◌, ◌≡◌, refl, List, [], ◌∷◌, ◌++◌,
  ltb, leb, ◌==◌, if◌then◌else◌,
}
use baen_economy_engine.Prelude.Int.{ℤ, pos, negsuc}
use baen_economy_engine.Prelude.Text.{codes}

mutual
  pub data Value : Type 0 where
    null : Value
    bool : Bool → Value
    int : ℤ → Value
    text : String → Value
    raw : List ℕ → Value
    obj : Fields → Value
    arr : Items → Value

  pub data Items : Type 0 where
    nil : Items
    cons : Value → Items → Items

  pub data Fields : Type 0 where
    end : Fields
    field : String → Value → Fields → Fields

-- The decimal digits of a number, most significant first; `fuel` bounds their count.
digits_of : ℕ → ℕ → List ℕ → List ℕ
digits_of zero n rest = rest
digits_of (suc fuel) n rest = elim (ltb n 10) [
  | true ↦ (n + 48) ∷ rest
  | false ↦ digits_of fuel (n / 10) ((n % 10 + 48) ∷ rest)
]

unfoldable pub nat_text : ℕ → List ℕ
unfolding digits_of
nat_text n = digits_of (suc n) n []

unfoldable pub int_text : ℤ → List ℕ
unfolding nat_text
int_text (pos n) = nat_text n
int_text (negsuc n) = b'-' ∷ nat_text (suc n)

hex_digit : ℕ → ℕ
hex_digit n = if ltb n 10 then n + 48 else n + 87

-- `\uXXXX`
hex_escape : ℕ → List ℕ
unfolding hex_digit
hex_escape c =
    92
    ∷ b'u'
    ∷ hex_digit (c / 4096)
    ∷ hex_digit (c / 256 % 16)
    ∷ hex_digit (c / 16 % 16)
    ∷ hex_digit (c % 16)
    ∷ []

-- One code point inside a JSON string, with `ensure_ascii=True`.
escape_code : ℕ → List ℕ
unfolding hex_escape
escape_code c =
    if c == 34 || c == 92
    then 92 ∷ c ∷ []
    else if c == 10
    then 92 ∷ b'n' ∷ []
    else if c == 13
    then 92 ∷ b'r' ∷ []
    else if c == 9
    then 92 ∷ b't' ∷ []
    else if c == 8
    then 92 ∷ b'b' ∷ []
    else if c == 12
    then 92 ∷ b'f' ∷ []
    else if leb 32 c && leb c 126
    then c ∷ []
    else if ltb c 0x10000
    then hex_escape c
    else hex_escape (0xd800 + (c - 0x10000) / 1024) ++ hex_escape (0xdc00 + (c - 0x10000) % 1024)

escape_all : List ℕ → List ℕ
unfolding escape_code
escape_all [] = []
escape_all (c ∷ cs) = escape_code c ++ escape_all cs

unfoldable pub raw_json : List ℕ → List ℕ
unfolding escape_all
raw_json cs = 34 ∷ (escape_all cs ++ (34 ∷ []))

unfoldable pub text_json : String → List ℕ
unfolding raw_json
text_json s = raw_json (codes s)

key_before : String → String → Bool
key_before a b = elim (compare a b) [ Ordering.gt ↦ false | _ ↦ true ]

-- The members of an object in the order of their keys.
insert_field : String → Value → Fields → Fields
insert_field k v end = field k v end
insert_field k v (field j w fs) =
    if key_before k j then field k v (field j w fs) else field j w (insert_field k v fs)

sort_fields : Fields → Fields
unfolding insert_field key_before
sort_fields end = end
sort_fields (field k v fs) = insert_field k v (sort_fields fs)

mutual
  sort_value : Value → Value
  sort_value (arr xs) = arr (sort_items xs)
  sort_value (obj fs) = obj (sort_fields (sort_members fs))
  sort_value null = null
  sort_value (bool b) = bool b
  sort_value (int n) = int n
  sort_value (text s) = text s
  sort_value (raw cs) = raw cs

  sort_items : Items → Items
  sort_items nil = nil
  sort_items (cons v xs) = cons (sort_value v) (sort_items xs)

  sort_members : Fields → Fields
  sort_members end = end
  sort_members (field k v fs) = field k (sort_value v) (sort_members fs)

mutual
  dumps : Value → List ℕ
  dumps null = codes "null"
  dumps (bool true) = codes "true"
  dumps (bool false) = codes "false"
  dumps (int n) = int_text n
  dumps (text s) = text_json s
  dumps (raw cs) = raw_json cs
  dumps (arr nil) = codes "[]"
  dumps (arr (cons v xs)) = b'[' ∷ (dumps v ++ dumps_items xs)
  dumps (obj end) = codes "{}"
  dumps (obj (field k v fs)) = b'{' ∷ (text_json k ++ (b':' ∷ (dumps v ++ dumps_fields fs)))

  dumps_items : Items → List ℕ
  dumps_items nil = b']' ∷ []
  dumps_items (cons v xs) = b',' ∷ (dumps v ++ dumps_items xs)

  dumps_fields : Fields → List ℕ
  dumps_fields end = b'}' ∷ []
  dumps_fields (field k v fs) = b',' ∷ (text_json k ++ (b':' ∷ (dumps v ++ dumps_fields fs)))

-- `json.dumps(normalize(value), sort_keys=True, separators=(",", ":"), ensure_ascii=True)`
unfoldable pub canonical_json : Value → List ℕ
unfolding sort_value dumps sort_fields int_text text_json
canonical_json v = dumps (sort_value v)

sample :
    canonical_json
      (obj (field "b" (arr (cons (int (negsuc 11)) (cons null nil))) (field "a" (text "x\"y") end)))
    ≡ codes "{\"a\":\"x\\\"y\",\"b\":[-12,null]}"
unfolding canonical_json
sample = refl
