-- ===== src/Ledger/Gaps.antt =====
-- src/ledger.rs: `seq_gaps`, the holes in the numbering of each run.
use trunnion.Prelude.{
  ℕ, ◌+◌, ◌-◌, true, false, ltb, ◌==◌, Text, str_eq, Option, none, some, List, [], ◌∷◌, ◌++◌,
  if◌then◌else◌,
}
use trunnion.Event.{Envelope}

pub record SeqGap : Type 0 where
  pub run_id : Text
  pub after : ℕ
  pub before : ℕ
  pub missing : ℕ

-- One round of the first loop: the number goes to its run, which is put last where it is new.
unfoldable pub note_seq : Text → ℕ → List (Text × List ℕ) → List (Text × List ℕ)
unfolding str_eq
note_seq run_id seq [] = (run_id, seq ∷ []) ∷ []
note_seq run_id seq ((id, seqs) ∷ runs) =
    if str_eq id run_id
    then (id, seqs ++ seq ∷ []) ∷ runs
    else (id, seqs) ∷ note_seq run_id seq runs

unfoldable pub runs_of :
    {V : Type 0} → List (Option (Envelope V)) → List (Text × List ℕ) → List (Text × List ℕ)
unfolding note_seq
runs_of [] runs = runs
runs_of (none ∷ envelopes) runs = runs_of envelopes runs
runs_of (some env ∷ envelopes) runs = runs_of envelopes (note_seq env.run_id env.seq runs)

-- `sort_unstable` and `dedup`.
unfoldable pub insert_seq : ℕ → List ℕ → List ℕ
insert_seq n [] = n ∷ []
insert_seq n (m ∷ ms) = elim (ltb n m) [
  | true ↦ n ∷ m ∷ ms
  | false ↦ elim (n == m) [ true ↦ m ∷ ms | false ↦ m ∷ insert_seq n ms ]
]

unfoldable pub sort_dedup : List ℕ → List ℕ
unfolding insert_seq
sort_dedup [] = []
sort_dedup (n ∷ ns) = insert_seq n (sort_dedup ns)

-- The loop over `windows(2)`.
unfoldable pub gaps_between : Text → List ℕ → List SeqGap
gaps_between run_id [] = []
gaps_between run_id (a ∷ []) = []
gaps_between run_id (a ∷ b ∷ ns) =
    let rest = gaps_between run_id (b ∷ ns) in
    if ltb (a + 1) b
    then record { run_id = run_id; after = a; before = b; missing = b - a - 1 } ∷ rest
    else rest

unfoldable pub gaps_of : List (Text × List ℕ) → List SeqGap
unfolding sort_dedup gaps_between
gaps_of [] = []
gaps_of ((run_id, seqs) ∷ runs) = gaps_between run_id (sort_dedup seqs) ++ gaps_of runs

unfoldable pub seq_gaps : {V : Type 0} → List (Option (Envelope V)) → List SeqGap
unfolding runs_of gaps_of
seq_gaps envelopes = gaps_of (runs_of envelopes [])
