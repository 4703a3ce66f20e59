-- ===== src/Ledger/Verify/Sound.antt =====
-- src/ledger.rs: what a report without faults says of the directory.
use trunnion.Prelude.{
  ℕ, zero, suc, ◌≤◌, ltb, any, length, take, map, Bool, true, false, Text, codes, str_eq,
  str_eq_iff, strip_prefix, Option, none, some, List, [], ◌∷◌, ◌++◌, ◌≡◌, ◌≢◌, ◌⊎◌, inl, inr, refl,
  sym, ◌∙◌, ap, arith, All, Any, Bool-cases,
}
use trunnion.Fault.{Result, ok, err, done, ◌>>=◌}
use trunnion.Json.{Json, Digest}
use trunnion.Keys.{Keys}
use trunnion.Event.{Envelope, canonical_bytes}
use trunnion.Merkle.{Hash, leaf_hash, root}
use trunnion.Ledger.{SignedHead, hash_str, parse_pub_key, verify_head_sig}
use trunnion.Ledger.Offline.{length-map}
use trunnion.Ledger.Actors.{
  AttestationState, verified, unverified, forged, absent, ActorKeys, parse_with_published, state_of,
  is_fixture,
}
use trunnion.Ledger.Verify.{
  Directory, EntryFault, VerifyReport, Walk, is_ok, is_empty, opt_eq, id_of, line_fault, form_fault,
  line_faults, link_fault, chain_faults, check_head, check_size, check_root, diverged, walk_on,
  walk_heads, tail_faults, bad_head,
}
use trunnion.Ledger.Verify.Report.{
  forgery, counted, attestation_faults, count_attestations, expired_in, payload_fault,
  entry_payload_fault, payload_faults, start_walk, first_id, all_faults, report_of,
  verify_with_actor_keys_and_published,
}

append-eq-nil : (xs ys : List EntryFault) → xs ++ ys ≡ [] → (xs ≡ []) × (ys ≡ [])
append-eq-nil [] ys h = (refl, h)
append-eq-nil (x ∷ xs) ys h = cc

snoc-ne-nil : (xs : List EntryFault) (x : EntryFault) → xs ++ x ∷ [] ≢ []
snoc-ne-nil [] x h = cc
snoc-ne-nil (y ∷ xs) x h = cc

six-eq-nil :
    (a b c e f g : List EntryFault)
    → a ++ (b ++ (c ++ (e ++ (f ++ g)))) ≡ []
    → (a ≡ []) × (b ≡ []) × (c ≡ []) × (e ≡ []) × (f ≡ []) × (g ≡ [])
six-eq-nil [] [] [] [] [] g h = (refl, refl, refl, refl, refl, h)
six-eq-nil [] [] [] [] (x ∷ f) g h = cc
six-eq-nil [] [] [] (x ∷ e) f g h = cc
six-eq-nil [] [] (x ∷ c) e f g h = cc
six-eq-nil [] (x ∷ b) c e f g h = cc
six-eq-nil (x ∷ a) b c e f g h = cc

opt_eq-eq : (s t : Option Text) → opt_eq s t ≡ true → s ≡ t
unfolding opt_eq
opt_eq-eq none none h = refl
opt_eq-eq none (some t) h = cc
opt_eq-eq (some s) none h = cc
opt_eq-eq (some s) (some t) h = ap some ((str_eq_iff s t).0 h)

-- The faults of a step's walk.
abbrev faults_of : Result (Bool × Walk) → List EntryFault
faults_of (err fault) = []
faults_of (ok (goes_on, walk)) = walk.faults

module _ (j : Json) (d : Digest) (keys : Keys) (parse : List ℕ → Option (Envelope j.Value)) where
  -- A line is an envelope's, in the canonical form where it has one.
  pub IsCanonical : List ℕ → Type 0
  IsCanonical line =
      (env : Envelope j.Value) × (parse line ≡ some env)
      × ((bytes : List ℕ) → canonical_bytes j d env ≡ ok bytes → bytes ≡ line)

  lines_sound :
      (i : ℕ) (lines : List (List ℕ))
      → line_faults j d keys parse i lines ≡ []
      → All IsCanonical lines
  unfolding line_faults IsCanonical
  lines_sound i [] h = tt
  lines_sound i (line ∷ lines) h =
      let (here, later) = append-eq-nil _ _ h in
      (of_line (parse line) refl here, lines_sound (suc i) lines later)
    where
      of_form :
          (env : Envelope j.Value) (canonical : Result (List ℕ))
          → form_fault j d keys parse i env line canonical ≡ []
          → (bytes : List ℕ) → canonical ≡ ok bytes
          → bytes ≡ line
      of_form env (err fault) e bytes c = cc
      of_form env (ok canon) e bytes c = elim (Bool-cases (str_eq canon line)) [
        | inl same ↦ let sameb : canon ≡ bytes = cc in rw (← sameb) ((str_eq_iff canon line).0 same)
        | inr differ ↦ absurd (cc (rw (differ) at e))
      ]

      of_line :
          (parsed : Option (Envelope j.Value))
          → parse line ≡ parsed
          → line_fault j d keys parse i line parsed ≡ []
          → IsCanonical line
      of_line none p e = cc
      of_line (some env) p e = (env, p, of_form env (canonical_bytes j d env) e)

  -- Every envelope names the leaf before it.
  abbrev pub Chained : Option Text → List (Option (Envelope j.Value)) → List Hash → Type 0
  Chained expected [] leaves = Unit
  Chained expected (env ∷ envelopes) [] = Unit
  Chained expected (env ∷ envelopes) (leaf ∷ leaves) =
      ((e : Envelope j.Value) → env ≡ some e → e.prev_hash ≡ expected)
      × Chained (some (hash_str j d keys leaf)) envelopes leaves

  chain_sound :
      (i : ℕ) (expected before : Option Text) (envelopes : List (Option (Envelope j.Value)))
      (leaves : List Hash)
      → chain_faults j d keys parse i expected before envelopes leaves ≡ []
      → Chained expected envelopes leaves
  unfolding chain_faults
  chain_sound i expected before [] leaves h = tt
  chain_sound i expected before (env ∷ envelopes) [] h = tt
  chain_sound i expected before (env ∷ envelopes) (leaf ∷ leaves) h =
      let (here, later) = append-eq-nil _ _ h in
      (
        linked env here,
        chain_sound (suc i) (some (hash_str j d keys leaf)) (id_of env) envelopes leaves later,
      )
    where
      linked :
          (o : Option (Envelope j.Value))
          → link_fault j d keys parse i expected before o ≡ []
          → (e : Envelope j.Value) → o ≡ some e
          → e.prev_hash ≡ expected
      linked none l e q = cc
      linked (some env') l e q = elim (Bool-cases (opt_eq env'.prev_hash expected)) [
        | inl same ↦ let one : env' ≡ e = cc in rw (← one) (opt_eq-eq env'.prev_hash expected same)
        | inr differ ↦ absurd (cc (rw (differ) at l))
      ]

  -- A head that the key signs over a beginning of the log.
  pub record IsHeadOver (vk : keys.Public) (leaves : List Hash) (head : SignedHead) : Type 0 where
    pub signed : verify_head_sig j d keys head vk ≡ done
    pub within : head.size ≤ length leaves
    pub root_eq : head.root_hash ≡ hash_str j d keys (root d (take head.size leaves))

  abbrev pub IsGoodHead : keys.Public → List Hash → Option SignedHead → Type 0
  IsGoodHead vk leaves line = (head : SignedHead) × (line ≡ some head) × IsHeadOver vk leaves head

  -- What a step of the walk that leaves no fault has done.
  record IsStep (vk : keys.Public) (leaves : List Hash) (line : Option SignedHead)
      (walk next : Walk) (goes_on : Bool) : Type 0 where
    onward : goes_on ≡ true
    faults_eq : walk.faults ≡ []
    faulted_eq : next.faulted ≡ walk.faulted
    good : IsGoodHead vk leaves line
    covered_eq : next.covered ≡ good.0.size

  check_root-IsStep :
      (vk : keys.Public) (leaves : List Hash) (envelopes : List (Option (Envelope j.Value)))
      (head : SignedHead) (walk next : Walk) (goes_on : Bool)
      → verify_head_sig j d keys head vk ≡ done
      → head.size ≤ length leaves
      → check_root j d keys parse leaves envelopes head walk ≡ ok (goes_on, next)
      → next.faults ≡ []
      → IsStep vk leaves (some head) walk next goes_on
  unfolding check_root
  check_root-IsStep vk leaves envelopes head walk next goes_on signed within h clean =
      elim (Bool-cases
        (str_eq (hash_str j d keys (root d (take head.size leaves))) head.root_hash)) [
          | inl same ↦
              let at : ◌≡◌ {A = Result (Bool × Walk)}
                  (ok (true, record walk { covered = head.size })) (ok (goes_on, next)) =
                rw (same, check_root) at h in
              let is_next : record walk { covered = head.size } ≡ next = cc in
              let is_on : true ≡ goes_on = cc in
              record {
                onward = sym is_on;
                faults_eq = rw (← is_next) at clean;
                faulted_eq = rw (← is_next) refl;
                good = (
                  head,
                  refl,
                  record {
                    signed = signed;
                    within = within;
                    root_eq = sym ((str_eq_iff _ _).0 same);
                  },
                );
                covered_eq = rw (← is_next) refl;
              }
          | inr differ ↦ absurd (broken head.size (rw (differ, check_root) at h))
        ]
    where
      broken :
          (size : ℕ)
          → diverged j d keys parse walk envelopes size
              (hash_str j d keys (root d (take head.size leaves)))
              head.root_hash
            ≡ ok (goes_on, next)
          → ⊥
      broken zero e = cc
      broken (suc suspect) e = absurd (snoc-ne-nil walk.faults _ (ap faults_of e ∙ clean))

  check_head-IsStep :
      (index : ℕ) (vk : keys.Public) (leaves : List Hash)
      (envelopes : List (Option (Envelope j.Value))) (line : Option SignedHead) (walk next : Walk)
      (goes_on : Bool)
      → check_head j d keys parse index vk leaves envelopes line walk ≡ ok (goes_on, next)
      → next.faults ≡ []
      → IsStep vk leaves line walk next goes_on
  unfolding check_head
  check_head-IsStep index vk leaves envelopes none walk next goes_on h clean =
      absurd (snoc-ne-nil walk.faults _ (ap faults_of h ∙ clean))
  check_head-IsStep index vk leaves envelopes (some head) walk next goes_on h clean =
      judged (verify_head_sig j d keys head vk) refl h
    where
      of_size :
          verify_head_sig j d keys head vk ≡ done
          → check_size j d keys parse index leaves envelopes head walk ≡ ok (goes_on, next)
          → IsStep vk leaves (some head) walk next goes_on
      of_size signed e = elim (Bool-cases (ltb (length leaves) head.size)) [
        | inl long ↦
            absurd (snoc-ne-nil walk.faults _ (ap faults_of (rw (long, check_size) at e) ∙ clean))
        | inr fits ↦
            check_root-IsStep vk leaves envelopes head walk next goes_on signed (ground arith)
              (rw (fits, check_size) at e) clean
      ]

      judged :
          (r : Result (Unit {0}))
          → verify_head_sig j d keys head vk ≡ r
          → elim r as (λ _. Result (Bool × Walk)) [
            | err fault ↦ ok (true, bad_head j d keys parse walk fault)
            | ok _ ↦ check_size j d keys parse index leaves envelopes head walk
          ]
            ≡ ok (goes_on, next)
          → IsStep vk leaves (some head) walk next goes_on
      judged (err fault) r e = absurd (snoc-ne-nil walk.faults _ (ap faults_of e ∙ clean))
      judged (ok _) r e = of_size r e

  -- The size that the walk has covered after these heads.
  abbrev pub covers_last : ℕ → List (Option SignedHead) → ℕ
  covers_last size [] = size
  covers_last size (none ∷ lines) = covers_last size lines
  covers_last size (some head ∷ lines) = covers_last head.size lines

  walk_sound :
      (index : ℕ) (vk : keys.Public) (leaves : List Hash)
      (envelopes : List (Option (Envelope j.Value))) (heads : List (Option SignedHead))
      (walk after : Walk)
      → walk_heads j d keys parse index vk leaves envelopes heads walk ≡ ok after
      → after.faults ≡ []
      → (walk.faults ≡ [])
        × (after.faulted ≡ walk.faulted)
        × All (IsGoodHead vk leaves) heads
        × (after.covered ≡ covers_last walk.covered heads)
  unfolding walk_heads
  walk_sound index vk leaves envelopes [] walk after h clean =
      let same : walk ≡ after = cc in (rw same clean, rw same refl, tt, rw same refl)
  walk_sound index vk leaves envelopes (line ∷ lines) walk after h clean =
      onward (check_head j d keys parse index vk leaves envelopes line walk) refl h
        (λ next rest. walk_sound (suc index) vk leaves envelopes lines next after rest clean)
    where
      onward :
          (r : Result (Bool × Walk))
          → check_head j d keys parse index vk leaves envelopes line walk ≡ r
          → (r
              >>= walk_on j d keys parse
                  (λ next. walk_heads j d keys parse (suc index) vk leaves envelopes lines next))
            ≡ ok after
          → ((next : Walk)
              → walk_heads j d keys parse (suc index) vk leaves envelopes lines next ≡ ok after
              → (next.faults ≡ [])
                × (after.faulted ≡ next.faulted)
                × All (IsGoodHead vk leaves) lines
                × (after.covered ≡ covers_last next.covered lines))
          → (walk.faults ≡ [])
            × (after.faulted ≡ walk.faulted)
            × All (IsGoodHead vk leaves) (line ∷ lines)
            × (after.covered ≡ covers_last walk.covered (line ∷ lines))
      onward (err fault) r e again = cc
      onward (ok (false, next)) r e again =
          let same : next ≡ after = cc in
          let stopped =
            check_head-IsStep index vk leaves envelopes line walk next false r (rw same clean) in
          absurd (cc (stopped.onward))
      onward (ok (true, next)) r e again =
          let (clean_next, faulted_eq, good, covered_eq) = again next e in
          let step = check_head-IsStep index vk leaves envelopes line walk next true r clean_next in
          (
            step.faults_eq,
            faulted_eq ∙ step.faulted_eq,
            (step.good, good),
            covered_eq
                ∙ ap (λ n. covers_last n lines) step.covered_eq
                ∙ sym (ap (λ l. covers_last walk.covered (l ∷ lines)) step.good.1),
          )

  -- The attestations: none is forged.
  abbrev pub NotForged : ActorKeys keys.Public → Option (Envelope j.Value) → Type 0
  NotForged actors o =
      (env : Envelope j.Value) → o ≡ some env → state_of j d keys actors env ≢ forged

  attestations_sound :
      (actors : ActorKeys keys.Public) (i : ℕ) (envelopes : List (Option (Envelope j.Value)))
      → attestation_faults j d keys parse actors i envelopes ≡ []
      → All (NotForged actors) envelopes
  unfolding attestation_faults
  attestations_sound actors i [] h = tt
  attestations_sound actors i (none ∷ envelopes) h =
      ((λ env e. absurd (cc)), attestations_sound actors (suc i) envelopes h)
  attestations_sound actors i (some env ∷ envelopes) h =
      let (here, later) =
        append-eq-nil (forgery j d keys parse i env (state_of j d keys actors env)) _ h in
      (
        (λ env' e is_forged.
            let same : env ≡ env' = cc in
            caught (state_of j d keys actors env) here (rw same is_forged)),
        attestations_sound actors (suc i) envelopes later,
      )
    where
      caught : (s : AttestationState) → forgery j d keys parse i env s ≡ [] → s ≢ forged
      caught s e is_forged = cc (rw (is_forged, forgery) at e)

  -- A payload that is there has the hash of its envelope; one that is not has expired on the record.
  abbrev pub IsBacked : (Text → Option (List ℕ)) → List Text → Option (Envelope j.Value) → Type 0
  IsBacked payload expired o =
      (env : Envelope j.Value) (name : Text)
      → o ≡ some env
      → strip_prefix (codes "sha256:") env.subject_hash ≡ some name
      → ((bytes : List ℕ) × (payload name ≡ some bytes)
          × (codes "sha256:" ++ d.hex (d.sha256 bytes) ≡ env.subject_hash))
        ⊎ ((payload name ≡ none) × (any (λ t. str_eq t env.subject_hash) expired ≡ true))

  payload_sound :
      (payload : Text → Option (List ℕ)) (expired : List Text) (i : ℕ) (env : Envelope j.Value)
      (name : Text)
      → payload_fault j d keys parse expired i env (payload name) ≡ []
      → ((bytes : List ℕ) × (payload name ≡ some bytes)
          × (codes "sha256:" ++ d.hex (d.sha256 bytes) ≡ env.subject_hash))
        ⊎ ((payload name ≡ none) × (any (λ t. str_eq t env.subject_hash) expired ≡ true))
  unfolding payload_fault
  payload_sound payload expired i env name h = of_file (payload name) refl h
    where
      of_file :
          (o : Option (List ℕ))
          → payload name ≡ o
          → payload_fault j d keys parse expired i env o ≡ []
          → ((bytes : List ℕ) × (payload name ≡ some bytes)
              × (codes "sha256:" ++ d.hex (d.sha256 bytes) ≡ env.subject_hash))
            ⊎ ((payload name ≡ none) × (any (λ t. str_eq t env.subject_hash) expired ≡ true))
      of_file none p e = elim (Bool-cases (any (λ t. str_eq t env.subject_hash) expired)) [
        | inl gone ↦ inr (p, gone)
        | inr lost ↦ absurd (cc (rw (lost, payload_fault) at e))
      ]
      of_file (some bytes) p e =
          elim (Bool-cases (str_eq (codes "sha256:" ++ d.hex (d.sha256 bytes)) env.subject_hash)) [
            | inl same ↦ inl (bytes, p, (str_eq_iff _ _).0 same)
            | inr differ ↦ absurd (cc (rw (differ, payload_fault) at e))
          ]

  payloads_sound :
      (payload : Text → Option (List ℕ)) (expired : List Text) (i : ℕ)
      (envelopes : List (Option (Envelope j.Value)))
      → payload_faults j d keys parse expired i payload envelopes ≡ []
      → All (IsBacked payload expired) envelopes
  unfolding payload_faults
  payloads_sound payload expired i [] h = tt
  payloads_sound payload expired i (none ∷ envelopes) h =
      ((λ env name e. absurd (cc)), payloads_sound payload expired (suc i) envelopes h)
  payloads_sound payload expired i (some env ∷ envelopes) h =
      let (here, later) =
        append-eq-nil (entry_payload_fault j d keys parse expired i payload env) _ h in
      (
        (λ env' name e named.
            let same : env ≡ env' = cc in
            rw (← same) (
              payload_sound payload expired i env name
                (rw (rw (← same) at named, entry_payload_fault) at here))),
        payloads_sound payload expired (suc i) envelopes later,
      )

  counted-faults :
      (s : AttestationState) (fixture : Bool) (report : VerifyReport)
      → (counted j d keys parse s fixture report).faults ≡ report.faults
  unfolding counted
  counted-faults verified fixture report = refl
  counted-faults unverified fixture report = refl
  counted-faults forged fixture report = refl
  counted-faults absent fixture report = refl

  -- Counting the attestations leaves the faults as they are.
  pub count_attestations-faults :
      (actors : ActorKeys keys.Public) (envelopes : List (Option (Envelope j.Value)))
      (report : VerifyReport)
      → (count_attestations j d keys parse actors envelopes report).faults ≡ report.faults
  unfolding count_attestations
  count_attestations-faults actors [] report = refl
  count_attestations-faults actors (none ∷ envelopes) report =
      count_attestations-faults actors envelopes report
  count_attestations-faults actors (some env ∷ envelopes) report =
      count_attestations-faults actors envelopes _
      ∙ counted-faults (state_of j d keys actors env) (is_fixture j d keys actors env) report

  covers_last_lem :
      (vk : keys.Public) (leaves : List Hash) (heads : List (Option SignedHead)) (size : ℕ)
      → All (IsGoodHead vk leaves) heads
      → length leaves ≤ covers_last size heads
      → (length leaves ≤ size)
        ⊎ Any (λ l. (head : SignedHead) × (l ≡ some head) × (head.size ≡ length leaves)) heads
  covers_last_lem vk leaves [] size good h = inl h
  covers_last_lem vk leaves (none ∷ heads) size good h = absurd (cc (good.0.1))
  covers_last_lem vk leaves (some head ∷ heads) size good h =
      let (head', same, over) = good.0 in
      let one : head ≡ head' = cc in
      elim (covers_last_lem vk leaves heads head.size good.1 h) [
        | inl reaches ↦
            let within : head.size ≤ length leaves = rw one over.within in
            inr (inl (head, refl, omega arith))
        | inr later ↦ inr (inr later)
      ]

  pub record IsIntact (vk : keys.Public) (actors : ActorKeys keys.Public)
      (payload : Text → Option (List ℕ)) (lines : List (List ℕ)) (heads : List (Option SignedHead))
      : Type 0 where
    pub canonical : All IsCanonical lines
    pub chained : Chained none (map parse lines) (map (leaf_hash d) lines)
    pub good : All (IsGoodHead vk (map (leaf_hash d) lines)) heads
    pub covered :
        (length lines ≤ 0)
        ⊎ Any (λ l. (head : SignedHead) × (l ≡ some head) × (head.size ≡ length lines)) heads
    pub authentic : All (NotForged actors) (map parse lines)
    pub backed :
        All
          (IsBacked payload (expired_in j d keys parse payload (map parse lines)))
          (map parse lines)

  is_empty-eq : (fs : List EntryFault) → is_empty fs ≡ true → fs ≡ []
  is_empty-eq [] h = refl
  is_empty-eq (f ∷ fs) h = cc

  tail_sound :
      (entries : ℕ) (envelopes : List (Option (Envelope j.Value))) (walk : Walk)
      → walk.faulted ≡ false
      → tail_faults j d keys parse entries envelopes walk ≡ []
      → entries ≤ walk.covered
  unfolding tail_faults
  tail_sound entries envelopes walk sane h = elim (Bool-cases (ltb walk.covered entries)) [
    | inl short ↦ absurd (cc (rw (sane, short, tail_faults) at h))
    | inr covers ↦ ground arith
  ]

  pub report_of-faults :
      (payload : Text → Option (List ℕ)) (actors : ActorKeys keys.Public) (lines : List (List ℕ))
      (walk : Walk)
      → (report_of j d keys parse payload actors lines walk).faults
        ≡ all_faults j d keys parse payload actors lines walk
  unfolding report_of
  report_of-faults payload actors lines walk = count_attestations-faults actors (map parse lines) _

  walked_sound :
      (vk : keys.Public) (actors : ActorKeys keys.Public) (payload : Text → Option (List ℕ))
      (lines : List (List ℕ)) (heads : List (Option SignedHead)) (walk : Walk)
      → walk_heads j d keys parse 0 vk
          (map (leaf_hash d) lines)
          (map parse lines)
          heads
          (start_walk j d keys parse)
        ≡ ok walk
      → is_ok (report_of j d keys parse payload actors lines walk) ≡ true
      → IsIntact vk actors payload lines heads
  unfolding report_of is_ok
  walked_sound vk actors payload lines heads walk walked clean =
      let none_left : all_faults j d keys parse payload actors lines walk ≡ [] =
        sym (report_of-faults payload actors lines walk) ∙ is_empty-eq _ clean in
      let (forms, links, walk_clean, tail, attested, files) = six-eq-nil _ _ _ _ _ _ none_left in
      let (_, sane, good, covered_eq) =
        walk_sound 0 vk (map (leaf_hash d) lines) (map parse lines) heads
          (start_walk j d keys parse) walk walked walk_clean in
      let size : length (map (leaf_hash d) lines) ≡ length lines = length-map (leaf_hash d) lines in
      record {
        canonical = lines_sound 0 lines forms;
        chained =
            chain_sound 0 none (first_id j d keys parse (map parse lines)) (map parse lines)
              (map (leaf_hash d) lines) links;
        good = good;
        covered = rw (← size) (
            covers_last_lem vk (map (leaf_hash d) lines) heads 0 good (
              rw (size, ← covered_eq)
                (tail_sound (length lines) (map parse lines) walk sane tail)));
        authentic = attestations_sound actors 0 (map parse lines) attested;
        backed =
            payloads_sound payload (expired_in j d keys parse payload (map parse lines)) 0
              (map parse lines) files;
      }

  -- A directory whose report has no fault is intact: its lines are envelopes in canonical form, each
  -- naming the leaf before it; every head is one that the key signs over a beginning of the log, and one
  -- of them over the whole, unless the log is empty; no attestation under a registered key is forged; and
  -- every payload that the log names by a hash has that hash, or is gone and expired on the record.
  pub verify_sound :
      (dir : Directory) (actor_keys published_seeds : List Text) (lines : List (List ℕ))
      (pub_hex : Text) (vk : keys.Public) (heads : List (Option SignedHead)) (report : VerifyReport)
      → dir.events ≡ ok lines
      → dir.public_key ≡ ok pub_hex
      → parse_pub_key j d keys pub_hex ≡ ok vk
      → dir.heads ≡ ok heads
      → verify_with_actor_keys_and_published j d keys parse dir actor_keys published_seeds
        ≡ ok report
      → is_ok report ≡ true
      → IsIntact vk
          (parse_with_published j d keys actor_keys published_seeds)
          dir.payload
          lines
          heads
  unfolding verify_with_actor_keys_and_published
  verify_sound dir actor_keys published_seeds lines pub_hex vk heads report events key read_key
        head_lines h clean =
      walked
        (walk_heads j d keys parse 0 vk (map (leaf_hash d) lines) (map parse lines) heads
          (start_walk j d keys parse))
        refl (rw (events, key, read_key, head_lines) at h)
    where
      walked :
          (r : Result Walk)
          → walk_heads j d keys parse 0 vk
              (map (leaf_hash d) lines)
              (map parse lines)
              heads
              (start_walk j d keys parse)
            ≡ r
          → (r >>= λ walk. ok (
              report_of j d keys parse dir.payload
                (parse_with_published j d keys actor_keys published_seeds)
                lines
                walk))
            ≡ ok report
          → IsIntact vk
              (parse_with_published j d keys actor_keys published_seeds)
              dir.payload
              lines
              heads
      walked (err fault) e same = absurd (cc)
      walked (ok walk) e same =
          let is_report : report_of j d keys parse dir.payload
                (parse_with_published j d keys actor_keys published_seeds) lines walk
              ≡ report =
            cc in
          walked_sound vk (parse_with_published j d keys actor_keys published_seeds) dir.payload
            lines heads walk e (rw is_report clean)
