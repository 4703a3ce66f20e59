-- ===== src/Drift/Observed.antt =====
-- src/drift.rs: what an outcome of the walk rests on.
use trunnion.Prelude.{
  Bool, true, false, ◌||◌, Bool-cases, or_eq_true, any, Text, codes, str_eq, str_eq_iff, Option,
  none, some, ◌≡◌, ◌≢◌, refl, ◌⊎◌, inl, inr,
}
use trunnion.Json.{Json, Digest}
use trunnion.Drift.{
  matched, divergence, unobservable, Reason, values_differ, nothing_declared, FieldReport, Running,
  Reading, value, unreadable, readable_sources, satisfies, read, source_of, declared_by, compared,
  report_reading, report_declared, report,
}

or_eq_false : (a b : Bool) → (a || b) ≡ false → (a ≡ false) × (b ≡ false)
or_eq_false true b h = cc
or_eq_false false b h = (refl, h)

six_eq_false :
    {a b c e f g : Bool}
    → (a || (b || (c || (e || (f || (g || false)))))) ≡ false
    → (a ≡ false) × (b ≡ false) × (c ≡ false) × (e ≡ false) × (f ≡ false) × (g ≡ false)
six_eq_false {a = true} h = cc
six_eq_false {a = false} {b = true} h = cc
six_eq_false {a = false} {b = false} {c = true} h = cc
six_eq_false {a = false} {b = false} {c = false} {e = true} h = cc
six_eq_false {a = false} {b = false} {c = false} {e = false} {f = true} h = cc
six_eq_false {a = false} {b = false} {c = false} {e = false} {f = false} {g = true} h = cc
six_eq_false {a = false} {b = false} {c = false} {e = false} {f = false} {g = false} h =
    (refl, refl, refl, refl, refl, refl)

module _ (j : Json) (d : Digest) (running : Running j.Value) where
  -- Only a source of the list gives a value.
  read-any :
      (source observed : Text)
      → read j d source running ≡ value observed
      → any (str_eq source) readable_sources ≡ true
  unfolding read
  read-any source observed h = elim (Bool-cases (any (str_eq source) readable_sources)) [
    | inl listed ↦ listed
    | inr unlisted ↦
        let (a, b, c, e, f, g) =
          six_eq_false {a = str_eq source (codes "sandbox.active_backend")}
            {b = str_eq source (codes "gateway.instruction_hash")}
            {c = str_eq source (codes "hook.settings_hash")}
            {e = str_eq source (codes "ledger.head")}
            {f = str_eq source (codes "gateway.identity_source")}
            {g = str_eq source (codes "event.attestation.key_id")} unlisted in
        absurd (cc (rw (a, b, c, e, f, g, read) at h))
  ]

  -- A reading of a listed source that is the declared value, or has the property that was declared.
  pub record IsMatched (spec : j.Value) (r : FieldReport) : Type 0 where
    pub declared : Text
    pub declared_eq : declared_by j d spec ≡ some declared
    pub observed : Text
    pub read_eq : read j d (source_of j d spec) running ≡ value observed
    pub listed : any (str_eq (source_of j d spec)) readable_sources ≡ true
    pub shown : r.observed ≡ some observed
    pub agrees : (observed ≡ declared) ⊎ (satisfies declared observed ≡ true)

  -- A reading of a listed source that is neither, with both values named.
  pub record IsDiverged (spec : j.Value) (r : FieldReport) : Type 0 where
    pub declared : Text
    pub declared_eq : declared_by j d spec ≡ some declared
    pub observed : Text
    pub read_eq : read j d (source_of j d spec) running ≡ value observed
    pub listed : any (str_eq (source_of j d spec)) readable_sources ≡ true
    pub shown : r.observed ≡ some observed
    pub differs : observed ≢ declared
    pub unmet : satisfies declared observed ≡ false
    pub reason_eq : r.reason ≡ some (values_differ r.field declared (source_of j d spec) observed)

  -- Nothing declared, or no reading; no value is shown, and the reason is.
  pub record IsUnobserved (spec : j.Value) (r : FieldReport) : Type 0 where
    pub reason : Reason
    pub reason_eq : r.reason ≡ some reason
    pub hidden : r.observed ≡ none
    pub nothing :
        (declared_by j d spec ≡ none) ⊎ (read j d (source_of j d spec) running ≡ unreadable reason)

  abbrev pub Rests : j.Value → FieldReport → Type 0
  Rests spec r = elim r.outcome [
    | matched ↦ IsMatched spec r
    | divergence ↦ IsDiverged spec r
    | unobservable ↦ IsUnobserved spec r
  ]

  compared-Rests :
      (field : Text) (spec : j.Value) (declared observed : Text) (agree : Bool)
      → declared_by j d spec ≡ some declared
      → read j d (source_of j d spec) running ≡ value observed
      → (str_eq observed declared || satisfies declared observed) ≡ agree
      → Rests spec (compared j d field (source_of j d spec) declared observed agree)
  unfolding compared
  compared-Rests field spec declared observed true declared_eq read_eq h = record {
    declared = declared;
    declared_eq = declared_eq;
    observed = observed;
    read_eq = read_eq;
    listed = read-any _ observed read_eq;
    shown = refl;
    agrees = elim (or_eq_true _ _ h) [
      | inl same ↦ inl ((str_eq_iff _ _).0 same)
      | inr met ↦ inr met
    ];
  }
  compared-Rests field spec declared observed false declared_eq read_eq h =
      let (other, unmet) = or_eq_false (str_eq observed declared) (satisfies declared observed) h in
      record {
        declared = declared;
        declared_eq = declared_eq;
        observed = observed;
        read_eq = read_eq;
        listed = read-any _ observed read_eq;
        shown = refl;
        differs = λ same. absurd (cc ((str_eq_iff observed declared).1 same, other));
        unmet = unmet;
        reason_eq = refl;
      }

  report_reading-Rests :
      (field : Text) (spec : j.Value) (declared : Text) (reading : Reading)
      → declared_by j d spec ≡ some declared
      → read j d (source_of j d spec) running ≡ reading
      → Rests spec (report_reading j d field (source_of j d spec) declared reading)
  unfolding report_reading
  report_reading-Rests field spec declared (unreadable reason) declared_eq read_eq = record {
    reason = reason;
    reason_eq = refl;
    hidden = refl;
    nothing = inr read_eq;
  }
  report_reading-Rests field spec declared (value observed) declared_eq read_eq =
      compared-Rests field spec declared observed _ declared_eq read_eq refl

  report_declared-Rests :
      (field : Text) (spec : j.Value) (declared : Option Text)
      → declared_by j d spec ≡ declared
      → Rests spec (report_declared j d field (source_of j d spec) declared running)
  unfolding report_declared
  report_declared-Rests field spec none e = record {
    reason = nothing_declared (source_of j d spec);
    reason_eq = refl;
    hidden = refl;
    nothing = inl e;
  }
  report_declared-Rests field spec (some declared) e =
      report_reading-Rests field spec declared (read j d (source_of j d spec) running) e refl

  -- A field is reported as a match only where its source is one of those that are read, and the reading is what
  -- the profile declares or a backend with the property that it declares; as a divergence only where there is
  -- such a reading and it is neither; and as unobservable only where nothing is declared or nothing is read,
  -- with the reason.
  pub report-Rests : (field : Text) (spec : j.Value) → Rests spec (report j d field spec running)
  unfolding report
  report-Rests field spec = report_declared-Rests field spec (declared_by j d spec) refl
