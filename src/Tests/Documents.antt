-- ===== src/Tests/Documents.antt =====
-- A small policy: notes may be written, a deployment is irreversible, the rest is denied.
use trunnion.Prelude.{codes, none, some, List, [], ◌∷◌}
use trunnion.Policy.Ladder.{write_local, irreversible, assisted, allow, deny}
use trunnion.Policy.Rules.{Capability, Rule, Policy}
use trunnion.Tests.Sample.{Tree, nothing, requirements}

abbrev pub write_notes : Capability
write_notes = record {
  id = codes "notes";
  tools = codes "Write(notes/**)" ∷ [];
  effect = write_local;
  rung = assisted;
  credentials = [];
  rollback = some (codes "git");
  sensors = [];
}

abbrev pub deploy : Capability
deploy = record {
  id = codes "deploy";
  tools = codes "Bash(deploy:*)" ∷ [];
  effect = irreversible;
  rung = assisted;
  credentials = [];
  rollback = none;
  sensors = [];
}

abbrev pub allow_notes : Rule
allow_notes = record {
  id = codes "r-notes";
  matcher = record { capability = some (codes "notes"); target_in = some (codes "notes/*" ∷ []) };
  when = none;
  action = allow;
  message = none;
}

abbrev pub allow_deploy : Rule
allow_deploy = record {
  id = codes "r-deploy";
  matcher = record { capability = some (codes "deploy"); target_in = none };
  when = none;
  action = allow;
  message = none;
}

abbrev pub deny_drafts : Rule
deny_drafts = record {
  id = codes "r-drafts";
  matcher = record {
    capability = some (codes "notes");
    target_in = some (codes "notes/draft*" ∷ []);
  };
  when = none;
  action = deny;
  message = some (codes "Finish it first");
}

abbrev pub deny_rest : Rule
deny_rest = record {
  id = codes "r-default";
  matcher = record { capability = none; target_in = none };
  when = none;
  action = deny;
  message = some (codes "Ask for a rule");
}

abbrev pub policy_of : List Rule → Policy Tree
policy_of rules = record {
  v = 1;
  policy_version = none;
  profile = codes "solo";
  profile_requirements = requirements;
  capabilities = write_notes ∷ deploy ∷ [];
  rules = rules;
  trust_budget = nothing;
}

abbrev pub policy : Policy Tree
policy = policy_of (allow_notes ∷ allow_deploy ∷ deny_rest ∷ [])
