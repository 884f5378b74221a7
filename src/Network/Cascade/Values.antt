-- ===== src/Network/Cascade/Values.antt =====
-- `normalizeByteArrays` of packages/core/src/network/cascade.ts, on what `JSON.parse` gives. The
-- numbers are naturals.
use holo_web_conductor.Common.{
  ℕ, Bool, true, false, ◌&&◌, [], ◌∷◌, Bytes, Text, if◌then◌else◌, leb, ◌≡◌, refl, arith,
  Bool-cases, inl, inr, ap,
}

mutual
  pub data Value : Type 0 where
    null : Value
    boolean : Bool → Value
    number : ℕ → Value
    text : Text → Value
    bytes : Bytes → Value
    array : Values → Value
    object : Fields → Value

  pub data Values : Type 0 where
    no_value : Values
    value : Value → Values → Values

  pub data Fields : Type 0 where
    no_field : Fields
    field : Text → Value → Fields → Fields

-- A number of a byte.
abbrev pub is_byte : Value → Bool
is_byte (number n) = leb n 255
is_byte _ = false

abbrev pub every_byte : Values → Bool
every_byte no_value = true
every_byte (value v vs) = is_byte v && every_byte vs

abbrev pub number_of : Value → ℕ
number_of (number n) = n
number_of _ = 0

abbrev pub bytes_of : Values → Bytes
bytes_of no_value = []
bytes_of (value v vs) = number_of v ∷ bytes_of vs

abbrev pub looks_like_bytes : Values → Bool
looks_like_bytes no_value = false
looks_like_bytes (value v vs) = every_byte (value v vs)

unfoldable mutual
  pub normalize : Value → Value
  normalize null = null
  normalize (boolean b) = boolean b
  normalize (number n) = number n
  normalize (text t) = text t
  normalize (bytes b) = bytes b
  normalize (array vs) =
      let rest = normalize_values vs in
      if looks_like_bytes vs then bytes (bytes_of vs) else array rest
  normalize (object fs) = object (normalize_fields fs)

  pub normalize_values : Values → Values
  normalize_values no_value = no_value
  normalize_values (value v vs) = value (normalize v) (normalize_values vs)

  pub normalize_fields : Fields → Fields
  normalize_fields no_field = no_field
  normalize_fields (field name v fs) = field name (normalize v) (normalize_fields fs)

normalize_byte : (v : Value) → is_byte (normalize v) ≡ is_byte v
unfolding normalize
normalize_byte null = refl
normalize_byte (boolean b) = refl
normalize_byte (number n) = refl
normalize_byte (text t) = refl
normalize_byte (bytes b) = refl
normalize_byte (array vs) = elim (Bool-cases (looks_like_bytes vs)) [
  | inl e ↦ rw e refl
  | inr e ↦ rw e refl
]
normalize_byte (object fs) = refl

every_byte-normalize_values : (vs : Values) → every_byte (normalize_values vs) ≡ every_byte vs
unfolding normalize
every_byte-normalize_values no_value = refl
every_byte-normalize_values (value v vs) =
    ground (arith, normalize_byte v, every_byte-normalize_values vs)

looks-normalize_values :
    (vs : Values) → looks_like_bytes (normalize_values vs) ≡ looks_like_bytes vs
unfolding normalize
looks-normalize_values no_value = refl
looks-normalize_values (value v vs) = every_byte-normalize_values (value v vs)

mutual
  unfolding normalize

  again : (v : Value) → normalize (normalize v) ≡ normalize v
  again null = refl
  again (boolean b) = refl
  again (number n) = refl
  again (text t) = refl
  again (bytes b) = refl
  again (array vs) = elim (Bool-cases (looks_like_bytes vs)) [
    | inl e ↦ rw e refl
    | inr e ↦ rw e (rw (looks-normalize_values vs, e) (ap array (again_values vs)))
  ]
  again (object fs) = ap object (again_fields fs)

  again_values : (vs : Values) → normalize_values (normalize_values vs) ≡ normalize_values vs
  again_values no_value = refl
  again_values (value v vs) = cc (again v, again_values vs)

  again_fields : (fs : Fields) → normalize_fields (normalize_fields fs) ≡ normalize_fields fs
  again_fields no_field = refl
  again_fields (field name v fs) = cc (again v, again_fields fs)

-- Normalising a value again changes nothing: every array of bytes is found the first time, however
-- deep it stands.
pub normalize-normalize : (v : Value) → normalize (normalize v) ≡ normalize v
normalize-normalize v = again v
