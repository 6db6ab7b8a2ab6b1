-- ===== src/Model/Format.antt =====
-- Formats whose values stand in front of whatever follows, from which the toy instance of
-- serde_json is made.
use localsend_uyava.Prelude.{
  ℕ, zero, suc, ◌≡◌, refl, ap, ◌⊎◌, inl, inr, List, [], ◌∷◌, Option, none, some, Bool, true, false,
  Bytes, Text,
}
use localsend_uyava.Model.{
  Codec, FileDto, FileMetadata, DeviceType, mobile, desktop, web, headless, server,
}

pub record Format (A : Type 0) : Type 0 where
  pub put : A → Bytes → Bytes
  pub parse : Bytes → Option (A × Bytes)
  pub parse-put : (a : A) (rest : Bytes) → parse (put a rest) ≡ some (a, rest)

abbrev pub then_parse {ℓ} : {A B : Type ℓ} → Option A → (A → Option B) → Option B
then_parse none f = none
then_parse (some a) f = f a

abbrev parse_number : Bytes → Option (ℕ × Bytes)
parse_number [] = none
parse_number (n ∷ rest) = some (n, rest)

abbrev pub number : Format ℕ
number = record { put = λ n rest. n ∷ rest; parse = parse_number; parse-put = λ n rest. refl }

abbrev pub unit : Format (Unit {0})
unit = record { put = λ u rest. rest; parse = λ b. some (tt, b); parse-put = λ u rest. refl }

module _ {A B : Type 0} (f : Format A) (g : Format B) where
  abbrev pub both : Format (A × B)
  both = record {
    put = λ (a, b) rest. f.put a (g.put b rest);
    parse = λ s. then_parse (f.parse s) λ (a, t). then_parse (g.parse t) λ (b, u). some ((a, b), u);
    parse-put = λ (a, b) rest. rw (f.parse-put a (g.put b rest), g.parse-put b rest) refl;
  }

  abbrev put_either : A ⊎ B → Bytes → Bytes
  put_either (inl a) rest = 0 ∷ f.put a rest
  put_either (inr b) rest = 1 ∷ g.put b rest

  abbrev parse_either : Bytes → Option ((A ⊎ B) × Bytes)
  parse_either [] = none
  parse_either (zero ∷ s) = then_parse (f.parse s) λ (a, t). some (inl a, t)
  parse_either (suc n ∷ s) = then_parse (g.parse s) λ (b, t). some (inr b, t)

  pub either_lem : (x : A ⊎ B) (rest : Bytes) → parse_either (put_either x rest) ≡ some (x, rest)
  either_lem (inl a) rest = rw (f.parse-put a rest) refl
  either_lem (inr b) rest = rw (g.parse-put b rest) refl

  abbrev pub either : Format (A ⊎ B)
  either = record { put = put_either; parse = parse_either; parse-put = either_lem }

module _ {A : Type 0} (f : Format A) where
  abbrev put_items : List A → Bytes → Bytes
  put_items [] rest = 0 ∷ rest
  put_items (a ∷ l) rest = 1 ∷ f.put a (put_items l rest)

  -- The fuel bounds the number of items.
  abbrev parse_items : ℕ → Bytes → Option (List A × Bytes)
  parse_items fuel [] = none
  parse_items fuel (zero ∷ s) = some ([], s)
  parse_items zero (suc n ∷ s) = none
  parse_items (suc fuel) (suc n ∷ s) =
      then_parse (f.parse s) λ (a, t). then_parse (parse_items fuel t) λ (l, u). some (a ∷ l, u)

  abbrev count : List A → ℕ
  count [] = 0
  count (a ∷ l) = suc (count l)

  pub items_lem :
      (l : List A) (rest : Bytes) → parse_items (count l) (put_items l rest) ≡ some (l, rest)
  items_lem [] rest = refl
  items_lem (a ∷ l) rest = rw (f.parse-put a (put_items l rest), items_lem l rest) refl

  abbrev parse_list : Bytes → Option (List A × Bytes)
  parse_list [] = none
  parse_list (n ∷ s) = parse_items n s

  abbrev pub list : Format (List A)
  list = record {
    put = λ l rest. count l ∷ put_items l rest;
    parse = parse_list;
    parse-put = items_lem;
  }

  -- The format of a type that stands for another.
  abbrev pub via : {B : Type 0} (to : B → A) (from : A → B) → ((b : B) → from (to b) ≡ b) → Format B
  via to from law = record {
    put = λ b rest. f.put (to b) rest;
    parse = λ s. then_parse (f.parse s) λ (a, t). some (from a, t);
    parse-put = λ b rest. rw (f.parse-put (to b) rest, law b) refl;
  }

  abbrev option_in : Option A → Unit {0} ⊎ A
  option_in none = inl tt
  option_in (some a) = inr a

  abbrev option_out : Unit {0} ⊎ A → Option A
  option_out (inl u) = none
  option_out (inr a) = some a

  pub option_lem : (o : Option A) → option_out (option_in o) ≡ o
  option_lem none = refl
  option_lem (some a) = refl

abbrev pub option : {A : Type 0} → Format A → Format (Option A)
option f = via (either unit f) (option_in f) (option_out f) (option_lem f)

abbrev bool_in : Bool → ℕ
bool_in false = 0
bool_in true = 1

abbrev bool_out : ℕ → Bool
bool_out zero = false
bool_out (suc n) = true

pub bool_lem : (b : Bool) → bool_out (bool_in b) ≡ b
bool_lem false = refl
bool_lem true = refl

abbrev pub bool : Format Bool
bool = via number bool_in bool_out bool_lem

abbrev pub whole {ℓ} : {A : Type ℓ} → Option (A × Bytes) → Option A
whole (some (a, [])) = some a
whole _ = none

-- A value that nothing follows.
abbrev pub codec : {A : Type 0} → Format A → Codec A
codec f = record {
  to_string = λ a. f.put a [];
  from_slice = λ s. whole (f.parse s);
  from_slice-to_string = λ a. ap whole (f.parse-put a []);
}

abbrev pub text : Format Text
text = list number

abbrev metadata : Format FileMetadata
metadata =
    via (both (option text) (option text)) (λ m. (m.modified, m.accessed))
      (λ (m, a). record { modified = m; accessed = a }) λ m. refl

abbrev pub file : Format FileDto
file =
    via
      (both text (
        both text
          (both number (both text (both (option text) (both (option text) (option metadata)))))))
      (λ f. (f.id, (f.file_name, (f.size, (f.file_type, (f.sha256, (f.preview, f.metadata)))))))
      (λ (i, (n, (s, (t, (h, (p, m)))))). record {
        id = i;
        file_name = n;
        size = s;
        file_type = t;
        sha256 = h;
        preview = p;
        metadata = m;
      })
      λ f. refl

abbrev put_device : DeviceType → ℕ
put_device mobile = 0
put_device desktop = 1
put_device web = 2
put_device headless = 3
put_device server = 4

abbrev parse_device : ℕ → DeviceType
parse_device zero = mobile
parse_device (suc zero) = desktop
parse_device (suc (suc zero)) = web
parse_device (suc (suc (suc zero))) = headless
parse_device _ = server

pub device_lem : (d : DeviceType) → parse_device (put_device d) ≡ d
device_lem mobile = refl
device_lem desktop = refl
device_lem web = refl
device_lem headless = refl
device_lem server = refl

abbrev pub device : Format (Option DeviceType)
device = option (via number put_device parse_device device_lem)
