-- ===== src/Tests/Corpus.antt =====
-- A corpus of two files for src/graph.rs, one of which changed after it was indexed.
use trunnion.Prelude.{
  true, false, Text, codes, str_eq, none, some, List, [], ◌∷◌, ◌≡◌, refl, ◌⊎◌, if◌then◌else◌,
}
use trunnion.Fault.{ok, err, file_unreadable}
use trunnion.Secrets.{contains}
use trunnion.Graph.{
  Node, Files, symbols_in, has_word, node_of, build, query, stale_nodes, flat_query,
}
use trunnion.Graph.Words.{IsCollision}
use trunnion.Graph.Fresh.{query-has_word}
use trunnion.Tests.Sample.{toy}

abbrev files : Files
files path =
    if str_eq path (codes "a.rs")
    then some (codes "fn drift() {}")
    else if str_eq path (codes "b.rs")
    then some (codes "let budget = 1;")
    else none

abbrev old_b : Text
old_b = codes "let drift = 1;"

abbrev index : List Node
unfolding node_of
index = node_of toy (codes "a.rs") (codes "fn drift() {}") ∷ node_of toy (codes "b.rs") old_b ∷ []

-- Tests.
symbols : symbols_in (codes "fn drift(a) { budget }") ≡ codes "budget" ∷ codes "drift" ∷ []
unfolding symbols_in
symbols = refl

missing_file : build toy files (codes "c.rs" ∷ []) ≡ err (file_unreadable (codes "c.rs"))
unfolding build str_eq
missing_file = refl

trusts_index : (query toy files index (codes "drift") false).hits ≡ codes "a.rs" ∷ codes "b.rs" ∷ []
unfolding query node_of
trusts_index = refl

checks_index : (query toy files index (codes "drift") true).hits ≡ codes "a.rs" ∷ []
unfolding query node_of str_eq
checks_index = refl

names_stale : stale_nodes toy files index ≡ codes "b.rs" ∷ []
unfolding stale_nodes node_of str_eq
names_stale = refl

flat_scan :
    flat_query files (codes "a.rs" ∷ codes "b.rs" ∷ []) (codes "budget")
    ≡ ok (record { hits = codes "b.rs" ∷ []; bytes_read = 28; stale_reread = [] })
unfolding flat_query str_eq
flat_scan = refl

query-has_word_example :
    (contains (query toy files index (codes "budget") true).hits (codes "b.rs")
      ≡ has_word (codes "let budget = 1;") (codes "budget"))
    ⊎ IsCollision toy (codes "let budget = 1;") old_b
unfolding node_of str_eq
query-has_word_example =
    query-has_word toy files (codes "budget") (codes "b.rs")
      (node_of toy (codes "a.rs") (codes "fn drift() {}") ∷ []) [] old_b (codes "let budget = 1;")
      refl refl (refl, tt) tt
