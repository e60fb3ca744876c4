-- ===== src/Example/Codec.antt =====
-- A serialisation for examples, in place of `serde_json`: a value is written before what follows it.
-- Documents are built from numbers, texts, options and pairs.
use agent_mqtt_chat.Base.{
  ℕ, zero, suc, Bool, true, false, List, length, Bytes, Text, ◌≡◌, refl, ap, [], ◌∷◌, Option, none,
  some, map_option, and_then,
}
use agent_mqtt_chat.External.{Json, IsRoundTrip}

pub record Codec (A : Type 0) : Type 0 where
  pub put : A → Bytes → Bytes
  pub get : Bytes → Option (A × Bytes)
  pub get-put : (a : A) (s : Bytes) → get (put a s) ≡ some (a, s)

abbrev put_text : Text → Bytes → Bytes
put_text [] s = 0 ∷ s
put_text (b ∷ t) s = suc b ∷ put_text t s

abbrev get_text : Bytes → Option (Text × Bytes)
get_text [] = none
get_text (zero ∷ s) = some ([], s)
get_text (suc b ∷ s) = map_option (λ (p : Text × Bytes). (b ∷ p.0, p.1)) (get_text s)

pub get_text-put_text : (t : Text) (s : Bytes) → get_text (put_text t s) ≡ some (t, s)
get_text-put_text [] s = refl
get_text-put_text (b ∷ t) s = rw (get_text-put_text t s) refl

abbrev pub text : Codec Text
text = record { put = put_text; get = get_text; get-put = get_text-put_text }

abbrev get_nat : Bytes → Option (ℕ × Bytes)
get_nat [] = none
get_nat (n ∷ s) = some (n, s)

abbrev pub nat : Codec ℕ
nat = record { put = λ n s. n ∷ s; get = get_nat; get-put = λ n s. refl }

abbrev put_option : {A : Type 0} → Codec A → Option A → Bytes → Bytes
put_option c none s = 0 ∷ s
put_option c (some a) s = 1 ∷ c.put a s

abbrev get_option : {A : Type 0} → Codec A → Bytes → Option (Option A × Bytes)
get_option c [] = none
get_option c (zero ∷ s) = some (none, s)
get_option {A} c (suc _ ∷ s) = map_option (λ (p : A × Bytes). (some p.0, p.1)) (c.get s)

pub get_option-put_option :
    {A : Type 0} (c : Codec A) (o : Option A) (s : Bytes)
    → get_option c (put_option c o s) ≡ some (o, s)
get_option-put_option c none s = refl
get_option-put_option c (some a) s = rw (c.get-put a s) refl

abbrev pub option : {A : Type 0} → Codec A → Codec (Option A)
option c = record { put = put_option c; get = get_option c; get-put = get_option-put_option c }

abbrev get_pair : {A B : Type 0} → Codec A → Codec B → Bytes → Option ((A × B) × Bytes)
get_pair {A} {B} c d s =
    and_then (c.get s)
      λ (p : A × Bytes). map_option (λ (q : B × Bytes). ((p.0, q.0), q.1)) (d.get p.1)

-- As many values as the number in front says.
abbrev put_all : {A : Type 0} → Codec A → List A → Bytes → Bytes
put_all c [] s = s
put_all c (a ∷ l) s = c.put a (put_all c l s)

abbrev get_all : {A : Type 0} → Codec A → ℕ → Bytes → Option (List A × Bytes)
get_all c zero s = some ([], s)
get_all {A} c (suc n) s =
    and_then (c.get s)
      λ (p : A × Bytes). map_option (λ (q : List A × Bytes). (p.0 ∷ q.0, q.1)) (get_all c n p.1)

pub get_all-put_all :
    {A : Type 0} (c : Codec A) (l : List A) (s : Bytes)
    → get_all c (length l) (put_all c l s) ≡ some (l, s)
get_all-put_all c [] s = refl
get_all-put_all c (a ∷ l) s = rw (c.get-put a (put_all c l s), get_all-put_all c l s) refl

abbrev get_list : {A : Type 0} → Codec A → Bytes → Option (List A × Bytes)
get_list c [] = none
get_list c (n ∷ s) = get_all c n s

abbrev pub list : {A : Type 0} → Codec A → Codec (List A)
list c = record {
  put = λ l s. length l ∷ put_all c l s;
  get = get_list c;
  get-put = get_all-put_all c;
}

abbrev get_bool : Bytes → Option (Bool × Bytes)
get_bool [] = none
get_bool (zero ∷ s) = some (false, s)
get_bool (suc _ ∷ s) = some (true, s)

abbrev put_bool : Bool → Bytes → Bytes
put_bool false s = 0 ∷ s
put_bool true s = 1 ∷ s

pub get_bool-put_bool : (b : Bool) (s : Bytes) → get_bool (put_bool b s) ≡ some (b, s)
get_bool-put_bool false s = refl
get_bool-put_bool true s = refl

abbrev pub boolean : Codec Bool
boolean = record { put = put_bool; get = get_bool; get-put = get_bool-put_bool }

infixr 4 ◌&◌
abbrev pub ◌&◌ : {A B : Type 0} → Codec A → Codec B → Codec (A × B)
c & d = record {
  put = λ p s. c.put p.0 (d.put p.1 s);
  get = get_pair c d;
  get-put = λ p s. rw (c.get-put p.0 (d.put p.1 s), d.get-put p.1 s) refl;
}

-- A document that is read from a value.
abbrev pub via :
    {A B : Type 0} → Codec A → (to : B → A) (from : A → B) → ((b : B) → from (to b) ≡ b) → Codec B
via {A} {B} c to from inverse = record {
  put = λ b s. c.put (to b) s;
  get = λ s. map_option (λ (p : A × Bytes). (from p.0, p.1)) (c.get s);
  get-put = λ b s. rw (c.get-put (to b) s) (ap (λ (x : B). some (x, s)) (inverse b));
}

abbrev pub json_of : {A : Type 0} → Codec A → Json A
json_of {A} c = record {
  encode = λ a. c.put a [];
  decode = λ s. map_option (λ (p : A × Bytes). p.0) (c.get s);
}

pub json_of-IsRoundTrip : {A : Type 0} (c : Codec A) → IsRoundTrip (json_of c)
json_of-IsRoundTrip c a = rw (c.get-put a []) refl
