-- ===== src/Core/Canonical.antt =====
-- crates/ukiel-core/src/operation.rs, `Canonical`: the canonical bytes of an intent. The buffer is
-- written from front to back, so an operation here is given the bytes that are pushed after its
-- own. A text is pushed as its UTF-8, a JSON number as the text that it prints as.
pub mod Prefix
pub mod Lists
use Prim.Native.Char.{Char, code}
use Prim.Native.String.{[] as empty, ◌∷◌ as char_then}
use ukiel.Base.{
  ℕ, zero, suc, ◌+◌, ◌-◌, ◌*◌, ◌/◌, ◌%◌, ◌^◌, String, List, [], ◌∷◌, length, Bool, true, false, ltb,
  if◌then◌else◌,
}
use ukiel.Base.Int.{ℤ, pos, negsuc}
use ukiel.Base.Sort.{list_order, nat_order, Order}
use ukiel.Core.Table.{Placement, packed, separated, size_targeted}

abbrev pub tag_str : ℕ
tag_str = 2

abbrev pub tag_int : ℕ
tag_int = 3

abbrev pub tag_list : ℕ
tag_list = 4

abbrev pub tag_json_null : ℕ
tag_json_null = 16

abbrev pub tag_json_bool : ℕ
tag_json_bool = 17

abbrev pub tag_json_number : ℕ
tag_json_number = 18

abbrev pub tag_json_string : ℕ
tag_json_string = 19

abbrev pub tag_json_array : ℕ
tag_json_array = 20

abbrev pub tag_json_object : ℕ
tag_json_object = 21

-- The bytes of a character: one to four, the first of which tells how many.
abbrev pub utf8_char : ℕ → List ℕ → List ℕ
utf8_char c after =
    let low = 128 + c % 64 in
    let mid = 128 + (c / 64) % 64 in
    if ltb c 128
    then c ∷ after
    else if ltb c 2048
    then (192 + c / 64) ∷ low ∷ after
    else if ltb c 65536
    then (224 + c / 64 / 64) ∷ mid ∷ low ∷ after
    else (240 + c / 64 / 64 / 64) ∷ (128 + (c / 64 / 64) % 64) ∷ mid ∷ low ∷ after

-- `s.as_bytes()`.
abbrev pub utf8 : String → List ℕ
utf8 empty = []
utf8 (char_then c s) = utf8_char (code c) (utf8 s)

abbrev pub push_all : List ℕ → List ℕ → List ℕ
push_all [] after = after
push_all (b ∷ bytes) after = b ∷ push_all bytes after

-- `to_be_bytes` of a number of so many bytes.
abbrev pub be_bytes : ℕ → ℕ → List ℕ → List ℕ
be_bytes zero n after = after
be_bytes (suc width) n after = be_bytes width (n / 256) (n % 256 ∷ after)

abbrev pub push_len : ℕ → List ℕ → List ℕ
push_len n = be_bytes 8 n

-- The two's complement of 64 bits.
abbrev pub bits : ℤ → ℕ
bits (pos n) = n % 2 ^ 64
bits (negsuc n) = 2 ^ 64 - 1 - n % 2 ^ 64

abbrev pub text : String → List ℕ → List ℕ
text s after = push_len (length (utf8 s)) (push_all (utf8 s) after)

abbrev pub str : String → List ℕ → List ℕ
str s after = tag_str ∷ text s after

abbrev pub int : ℤ → List ℕ → List ℕ
int v after = tag_int ∷ be_bytes 8 (bits v) after

abbrev pub each {ℓ} : {A : Type ℓ} → (A → List ℕ → List ℕ) → List A → List ℕ → List ℕ
each item [] after = after
each item (x ∷ xs) after = item x (each item xs after)

abbrev pub list {ℓ} : {A : Type ℓ} → (A → List ℕ → List ℕ) → List A → List ℕ → List ℕ
list item items after = tag_list ∷ push_len (length items) (each item items after)

abbrev pub placement : Placement → List ℕ → List ℕ
placement packed after = str "packed" after
placement separated after = str "separated" after
placement (size_targeted n) after = str "size_targeted" (int n after)

mutual
  pub data Value : Type 0 where
    null : Value
    bool : Bool → Value
    number : String → Value
    string : String → Value
    array : Values → Value
    object : Fields → Value

  pub data Values : Type 0 where
    none_left : Values
    item : Value → Values → Values

  pub data Fields : Type 0 where
    no_field : Fields
    field : String → Value → Fields → Fields

abbrev pub count_values : Values → ℕ
count_values none_left = 0
count_values (item v vs) = suc (count_values vs)

abbrev pub count_fields : Fields → ℕ
count_fields no_field = 0
count_fields (field k v fs) = suc (count_fields fs)

abbrev pub le_key : String → String → Bool
le_key a b = list_order.le (utf8 a) (utf8 b)

-- The entry of a key among the entries that are in the keys' order.
abbrev pub insert_field : String → Value → Fields → Fields
insert_field k v no_field = field k v no_field
insert_field k v (field j w fs) =
    let rest = insert_field k v fs in
    if le_key k j then field k v (field j w fs) else field j w rest

-- A value with the keys of each of its objects in order, as `json` visits them.
abbrev mutual
  pub sorted : Value → Value
  sorted null = null
  sorted (bool b) = bool b
  sorted (number n) = number n
  sorted (string s) = string s
  sorted (array vs) = array (sorted_values vs)
  sorted (object fs) = object (sorted_fields fs)

  pub sorted_values : Values → Values
  sorted_values none_left = none_left
  sorted_values (item v vs) = item (sorted v) (sorted_values vs)

  pub sorted_fields : Fields → Fields
  sorted_fields no_field = no_field
  sorted_fields (field k v fs) = insert_field k (sorted v) (sorted_fields fs)

abbrev mutual
  pub push_value : Value → List ℕ → List ℕ
  push_value null after = tag_json_null ∷ after
  push_value (bool b) after = tag_json_bool ∷ (if b then 1 else 0) ∷ after
  push_value (number n) after = tag_json_number ∷ text n after
  push_value (string s) after = tag_json_string ∷ text s after
  push_value (array vs) after = tag_json_array ∷ push_len (count_values vs) (push_values vs after)
  push_value (object fs) after = tag_json_object ∷ push_len (count_fields fs) (push_fields fs after)

  pub push_values : Values → List ℕ → List ℕ
  push_values none_left after = after
  push_values (item v vs) after = push_value v (push_values vs after)

  pub push_fields : Fields → List ℕ → List ℕ
  push_fields no_field after = after
  push_fields (field k v fs) after = text k (push_value v (push_fields fs after))

abbrev pub json : Value → List ℕ → List ℕ
json v after = push_value (sorted v) after
