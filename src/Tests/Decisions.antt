-- ===== src/Tests/Decisions.antt =====
-- Runs of the decisions of src/policy.rs under a small policy, and uses of their theorems.
use trunnion.Prelude.{
  true, Text, codes, is_blank, find, All, none, some, [], ◌∷◌, ◌≡◌, ◌≢◌, ◌↔◌, ◌⊎◌, refl, arith,
  strip_prefix,
}
use trunnion.Fault.{done, ok}
use trunnion.Policy.Ladder.{irreversible, Rung, led, allow, hold, post}
use trunnion.Policy.Rules.{Capability, Rule, covers, validate}
use trunnion.Policy.Rules.Sound.{IsSound, validate_iff}
use trunnion.Policy.Decide.{Decision, declares, rule_applies, decide_on}
use trunnion.Policy.Decide.Shadow.{without_rule, decide_on-shadowed}
use trunnion.Policy.Decide.Verdict.{IsLoud, IsNotMute, decide_on-allow, decide_on-explained}
use trunnion.Policy.Glob.{strip_dot}
use trunnion.Policy.HostParity.{deny_list, host_parity}
use trunnion.Policy.HostParity.Replay.{IsAnswered, host_parity_sound}
use trunnion.Policy.Availability.{
  for_this_build, unavailable_requirements, stance_of, availability_check,
}
use trunnion.Policy.Availability.Stance.{IsAvailable, availability_check_iff}
use trunnion.Tests.Documents.{allow_notes, deny_drafts, deny_rest, policy_of, policy}
use trunnion.Tests.Sample.{
  Tree, nothing, render, toy, sample_json, sample_json-ReadsBack, settings, requirements,
}

abbrev declared_rung : Text → Rung → Rung
declared_rung _ rung = rung

abbrev on_note : Decision Tree
on_note = decide_on policy nothing (codes "Write") (codes "notes/a") nothing declared_rung

abbrev on_deploy : Decision Tree
on_deploy = decide_on policy nothing (codes "Bash") (codes "deploy prod") nothing declared_rung

-- Tests.
loads : validate policy ≡ done
unfolding validate
loads = refl

note_allowed : on_note.verdict ≡ allow
unfolding decide_on
note_allowed = refl

deploy_held : on_deploy.verdict ≡ hold
unfolding decide_on
deploy_held = refl

shadowing : covers allow_notes deny_drafts ≡ true
unfolding covers
shadowing = refl

parity_clean : host_parity sample_json toy policy (render settings) ≡ ok []
unfolding host_parity
parity_clean = refl

validate_iff_example : (validate policy ≡ done) ↔ IsSound policy
validate_iff_example = validate_iff policy

decide_on-shadowed_example :
    decide_on
      (without_rule
        (policy_of (allow_notes ∷ deny_drafts ∷ deny_rest ∷ []))
        (allow_notes ∷ deny_rest ∷ []))
      nothing
      (codes "Write")
      (codes "notes/draft1")
      nothing
      declared_rung
    ≡ decide_on
        (policy_of (allow_notes ∷ deny_drafts ∷ deny_rest ∷ []))
        nothing
        (codes "Write")
        (codes "notes/draft1")
        nothing
        declared_rung
decide_on-shadowed_example =
    decide_on-shadowed (policy_of (allow_notes ∷ deny_drafts ∷ deny_rest ∷ [])) nothing []
      allow_notes [] deny_drafts (deny_rest ∷ []) refl
      (((refl, (refl, (refl, (refl, (refl, (refl, (refl, tt))))))), tt), (rooted, tt)) shadowing
      (codes "Write") (codes "notes/draft1") nothing declared_rung
  where
    rooted : strip_prefix (codes "**/") (strip_dot (codes "notes/draft*")) ≡ none
    rooted = unfold strip_prefix strip_dot in refl

decide_on-allow_example :
    (cap : Capability) × (rule : Rule) × (find
        (declares (codes "Write") (codes "notes/a"))
        policy.capabilities
      ≡ some cap)
    × (find (rule_applies policy.profile cap.id (codes "notes/a")) policy.rules ≡ some rule)
    × (rule.action ≡ allow)
    × (cap.effect ≢ irreversible)
    × (declared_rung cap.id cap.rung ≢ led)
    × (on_note.gate ≡ some post → cap.rollback ≢ none)
decide_on-allow_example =
    decide_on-allow policy nothing (codes "Write") (codes "notes/a") nothing declared_rung
      note_allowed

decide_on-explained_example : IsLoud on_deploy.message
decide_on-explained_example =
    decide_on-explained policy nothing (codes "Bash") (codes "deploy prod") nothing declared_rung
      loads loud held
  where
    loud : All IsNotMute policy.rules
    loud = ((λ m h. cc), ((λ m h. cc), ((λ m h. unfold is_blank in ground arith), tt)))

    held : on_deploy.verdict ≢ allow
    held h = absurd (ground (arith, deploy_held))

host_parity_sound_example :
    All (IsAnswered sample_json toy policy) (deny_list sample_json toy policy settings)
host_parity_sound_example =
    host_parity_sound sample_json toy policy (render settings) settings
      (sample_json-ReadsBack settings (render settings) refl) parity_clean

availability_check_iff_example :
    (availability_check sample_json (codes "solo") requirements (for_this_build (codes "seatbelt"))
      ≡ ok [])
    ↔ (([] ≡ unavailable_requirements sample_json requirements (for_this_build (codes "seatbelt")))
        × ((stance_of sample_json requirements ≡ codes "degrade")
            ⊎ ((stance_of sample_json requirements ≡ codes "refuse")
                × IsAvailable sample_json requirements (for_this_build (codes "seatbelt")))))
availability_check_iff_example =
    availability_check_iff sample_json requirements (for_this_build (codes "seatbelt"))
      (codes "solo") []
