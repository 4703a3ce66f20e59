-- ===== src/Tests/Sample.antt =====
-- Concrete JSON values and a concrete digest, on which the models run.
use trunnion.Prelude.{
  ℕ, zero, suc, ◌+◌, ◌-◌, sym, ◌∙◌, append_assoc, inl, Bool, true, false, ◌&&◌, ◌==◌, Text, codes,
  str_eq, length, Option, none, some, List, [], ◌∷◌, ◌++◌, subst, ◌≡◌, refl, ap, arith, str_eq_refl,
  str_eq_iff, and_eq_true, if◌then◌else◌,
}
use mathlib.Core.List.{append-nil}
use trunnion.Json.{Json, Digest, IsLawful, ReadsBack, lookup}
use trunnion.Fault.{ok}
use trunnion.Merkle.Collision.{IsSized}
use trunnion.Trust.Log.{Log, IsAppendOnly}

-- The first `n` bytes, filled up with zeros.
abbrev pub cut : ℕ → List ℕ → List ℕ
cut zero bytes = []
cut (suc n) [] = 0 ∷ cut n []
cut (suc n) (b ∷ bytes) = b ∷ cut n bytes

pub length-cut : (n : ℕ) (bytes : List ℕ) → length (cut n bytes) ≡ n
length-cut zero bytes = refl
length-cut (suc n) [] = ap suc (length-cut n [])
length-cut (suc n) (b ∷ bytes) = ap suc (length-cut n bytes)

-- A digest of the right size, with the bytes as their own hexadecimal.
abbrev pub toy : Digest
toy = record { sha256 = cut 32; hex = λ bytes. bytes; unhex = λ text. some text }

pub toy-IsSized : IsSized toy
toy-IsSized bytes = length-cut 32 bytes

-- An object is a chain of keys, and an array a chain of empty keys that ends in `list_end`.
pub data Tree : Type 0 where
  nothing list_end : Tree
  text : Text → Tree
  number : ℕ → Tree
  key : Text → Tree → Tree → Tree

abbrev pub array : List Tree → Tree
array [] = list_end
array (t ∷ ts) = key [] t (array ts)

abbrev pub keys : List (Text × Tree) → Tree
keys [] = nothing
keys ((k, t) ∷ fields) = key k t (keys fields)

abbrev find_key : Text → Tree → Option Tree
find_key name (key k t fields) = elim (find_key name fields) [
  | some u ↦ some u
  | none ↦ if str_eq k name then some t else none
]
find_key name _ = none

abbrev or_nothing : Option Tree → Tree
or_nothing none = nothing
or_nothing (some t) = t

abbrev at_key : Tree → Text → Tree
at_key t name = or_nothing (find_key name t)

abbrev text_of : Tree → Option Text
text_of (text t) = some t
text_of _ = none

abbrev number_of : Tree → Option ℕ
number_of (number n) = some n
number_of _ = none

abbrev pub cons_item : Tree → Option (List Tree) → Option (List Tree)
cons_item t none = none
cons_item t (some ts) = some (t ∷ ts)

abbrev pub items : Tree → Option (List Tree)
items list_end = some []
items (key [] t ts) = cons_item t (items ts)
items _ = none

abbrev cons_field : Text → Tree → Option (List (Text × Tree)) → Option (List (Text × Tree))
cons_field k t none = none
cons_field k t (some fields) = some ((k, t) ∷ fields)

abbrev fields_of : Tree → Option (List (Text × Tree))
fields_of nothing = some []
fields_of (key k t fields) = cons_field k t (fields_of fields)
fields_of _ = none

abbrev same : Tree → Tree → Bool
same nothing nothing = true
same list_end list_end = true
same (text t) (text u) = str_eq t u
same (number n) (number m) = n == m
same (key k t ts) (key l u us) = str_eq k l && (same t u && same ts us)
same _ _ = false

same_refl : (t : Tree) → same t t ≡ true
same_refl nothing = refl
same_refl list_end = refl
same_refl (text t) = str_eq_refl t
same_refl (number n) = ground arith
same_refl (key k t ts) = rw (str_eq_refl k, same_refl t, same_refl ts)

same-eq : (t u : Tree) → same t u ≡ true → t ≡ u
same-eq nothing u h = ground arith
same-eq list_end u h = ground arith
same-eq (text t) (text u) h = ap text ((str_eq_iff t u).0 h)
same-eq (text t) nothing h = cc
same-eq (text t) list_end h = cc
same-eq (text t) (number n) h = cc
same-eq (text t) (key k u us) h = cc
same-eq (number n) u h = ground arith
same-eq (key k t ts) (key l u us) h =
    let (first, rest) = and_eq_true (str_eq k l) (same t u && same ts us) h in
    let (second, third) = and_eq_true (same t u) (same ts us) rest in
    let name : k ≡ l = (str_eq_iff k l).0 first in
    let value : t ≡ u = same-eq t u second in let others : ts ≡ us = same-eq ts us third in cc
same-eq (key k t ts) nothing h = cc
same-eq (key k t ts) list_end h = cc
same-eq (key k t ts) (text u) h = cc
same-eq (key k t ts) (number n) h = cc

-- A value in bytes, its parts before it: 0 begins a text, to which the bytes from 5 on add, 3 a number.
abbrev shifted : List ℕ → List ℕ
shifted [] = []
shifted (c ∷ s) = (5 + c) ∷ shifted s

abbrev pub render : Tree → List ℕ
render nothing = 1 ∷ []
render list_end = 2 ∷ []
render (text t) = 0 ∷ shifted t
render (number n) = 3 ∷ (5 + n) ∷ []
render (key k t ts) = (0 ∷ shifted k) ++ (render t ++ (render ts ++ 4 ∷ []))

abbrev put_code : ℕ → List Tree → List Tree
put_code c (text t ∷ stack) = text (t ++ c ∷ []) ∷ stack
put_code c (number _ ∷ stack) = number c ∷ stack
put_code c stack = stack

abbrev put_key : List Tree → List Tree
put_key (ts ∷ t ∷ text k ∷ stack) = key k t ts ∷ stack
put_key stack = stack

abbrev read_byte : ℕ → List Tree → List Tree
read_byte b stack =
    if b == 0
    then text [] ∷ stack
    else if b == 1
    then nothing ∷ stack
    else if b == 2
    then list_end ∷ stack
    else if b == 3
    then number 0 ∷ stack
    else if b == 4
    then put_key stack
    else put_code (b - 5) stack

abbrev read_bytes : List ℕ → List Tree → List Tree
read_bytes [] stack = stack
read_bytes (b ∷ bytes) stack = read_bytes bytes (read_byte b stack)

abbrev only : List Tree → Option Tree
only (t ∷ []) = some t
only _ = none

-- A host's settings whose deny list holds one tool pattern and a bare tool.
abbrev pub settings : Tree
settings =
    key (codes "permissions")
      (key (codes "deny") (array (text (codes "Bash(deploy:*)") ∷ text (codes "WebFetch") ∷ []))
        nothing)
      nothing

abbrev pub sample_json : Json
sample_json = record {
  Value = Tree;
  null = nothing;
  str = text;
  bool = λ b. number (if b then 1 else 0);
  number = number;
  object = keys;
  array = array;
  field = at_key;
  pointer = λ t path. elim path [ [] ↦ some t | _ ∷ name ↦ find_key name t ];
  as_str = text_of;
  as_u64 = number_of;
  as_array = items;
  as_object = fields_of;
  equal = same;
  from_str = λ bytes. only (read_bytes bytes []);
  jcs = λ t. some (render t);
}

-- `profile_requirements` that refuse what no backend confines.
abbrev pub requirements : Tree
requirements =
    key (codes "on_unavailable") (text (codes "refuse"))
      (key (codes "isolation") (key (codes "declared") (text (codes "seatbelt")) nothing) nothing)

find_key-lookup :
    (name : Text) (fields : List (Text × Tree)) → find_key name (keys fields) ≡ lookup name fields
find_key-lookup name [] = refl
find_key-lookup name ((k, t) ∷ fields) = rw (find_key-lookup name fields)

pub sample_json-IsLawful : IsLawful sample_json
sample_json-IsLawful = record {
  as_str-str = λ t. refl;
  as_str-null = refl;
  equal_iff = λ v w. (same-eq v w, λ e. subst (λ u. same v u ≡ true) e (same_refl v));
  str-injective = λ s t e. cc;
  field-object = λ k fields. ap or_nothing (find_key-lookup k fields);
}

-- A log that is a list of its events.
abbrev pub event_of : Text → Tree → Tree
event_of kind subject = keys ((codes "kind", text kind) ∷ (codes "_subject", subject) ∷ [])

abbrev pub list_log : Log sample_json
list_log = record {
  Store = List Tree;
  append = λ kind subject events. (events ++ event_of kind subject ∷ [], ok tt);
  history = λ events. ok events;
}

pub list_log-IsAppendOnly : IsAppendOnly sample_json toy list_log (λ _. Unit)
list_log-IsAppendOnly = record {
  appended = λ kind subject store after events _ _ done seen. inl (
    tt,
    (
      event_of kind subject,
      record { kind_eq = unfold str_eq in refl; subject_eq = unfold str_eq in refl },
      cc,
    ),
  );
}

read_bytes-append :
    (a b : List ℕ) (stack : List Tree)
    → read_bytes (a ++ b) stack ≡ read_bytes b (read_bytes a stack)
read_bytes-append [] b stack = refl
read_bytes-append (c ∷ a) b stack = read_bytes-append a b (read_byte c stack)

read_code : (c : ℕ) (stack : List Tree) → read_byte (5 + c) stack ≡ put_code c stack
read_code c stack = ground arith

read_shifted :
    (s t : Text) (stack : List Tree)
    → read_bytes (shifted s) (text t ∷ stack) ≡ text (t ++ s) ∷ stack
read_shifted [] t stack = ap (λ u. text u ∷ stack) (sym (append-nil t))
read_shifted (c ∷ s) t stack =
    ap (read_bytes (shifted s)) (read_code c (text t ∷ stack))
    ∙ read_shifted s (t ++ c ∷ []) stack
    ∙ ap (λ u. text u ∷ stack) (append_assoc t (c ∷ []) s)

read_render : (t : Tree) (stack : List Tree) → read_bytes (render t) stack ≡ t ∷ stack
read_render nothing stack = refl
read_render list_end stack = refl
read_render (text t) stack = read_shifted t [] stack
read_render (number n) stack = read_code n (number 0 ∷ stack)
read_render (key k t ts) stack =
    read_bytes-append (shifted k) (render t ++ (render ts ++ 4 ∷ [])) (text [] ∷ stack)
    ∙ ap (read_bytes (render t ++ (render ts ++ 4 ∷ []))) (read_shifted k [] stack)
    ∙ read_bytes-append (render t) (render ts ++ 4 ∷ []) (text k ∷ stack)
    ∙ ap (read_bytes (render ts ++ 4 ∷ [])) (read_render t (text k ∷ stack))
    ∙ read_bytes-append (render ts) (4 ∷ []) (t ∷ text k ∷ stack)
    ∙ ap (read_bytes (4 ∷ [])) (read_render ts (t ∷ text k ∷ stack))

pub sample_json-ReadsBack : (t : Tree) → ReadsBack sample_json t
sample_json-ReadsBack t bytes written =
    ap (λ b. only (read_bytes b [])) (sym (rendered written)) ∙ ap only (read_render t [])
  where
    rendered : ◌≡◌ {A = Option (List ℕ)} (some (render t)) (some bytes) → render t ≡ bytes
    rendered e = cc
