-- ===== src/Trial.antt =====
-- A method that changes its object and may fail, with what it changed before it failed.
use trunnion.Prelude.{◌≡◌, refl}
use trunnion.Fault.{Result, ok, err}

abbrev pub Trial : Type 0 → Type 0 → Type 0
Trial S A = S → S × Result A

abbrev pub give : {S A : Type 0} → Result A → Trial S A
give result store = (store, result)

abbrev pub chain : {S A B : Type 0} → S × Result A → (A → Trial S B) → S × Result B
chain (store, err fault) rest = (store, err fault)
chain (store, ok value) rest = rest value store

infixl 5 ◌>>=◌ ◌>>◌
abbrev pub ◌>>=◌ : {S A B : Type 0} → Trial S A → (A → Trial S B) → Trial S B
trial >>= rest = λ store. chain (trial store) rest

abbrev pub ◌>>◌ : {S A B : Type 0} → Trial S A → Trial S B → Trial S B
trial >> rest = trial >>= λ _. rest

-- A chain of trials that ends well went through a store between its two parts.
pub chain-eq-ok :
    {S A B : Type 0} (trial : S × Result A) (rest : A → Trial S B) (after : S) (b : B)
    → chain trial rest ≡ (after, ok b)
    → (between : S) × (a : A) × (trial ≡ (between, ok a)) × (rest a between ≡ (after, ok b))
chain-eq-ok (store, err fault) rest after b h = cc
chain-eq-ok (store, ok a) rest after b h = (store, a, refl, h)

-- A change that cannot fail, and one that a file system allows or refuses.
abbrev pub update : {S : Type 0} → (S → S) → Trial S (Unit {0})
update f store = (f store, ok tt)

abbrev pub attempt : {S : Type 0} → Result (Unit {0}) → (S → S) → Trial S (Unit {0})
attempt (err fault) f store = (store, err fault)
attempt (ok _) f store = (f store, ok tt)
