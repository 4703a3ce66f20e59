-- ===== src/Graph.antt =====
-- src/graph.rs: the index over a corpus (`Graph`), its query, and the flat scan. A disk gives the bytes of a
-- path; a word is read byte by byte, since no byte of another character is a letter, a digit or `_`.
pub mod Words
pub mod Fresh
use trunnion.Prelude.{
  ℕ, ◌+◌, ◌==◌, ltb, leb, length, Bool, true, false, ◌&&◌, ◌||◌, not, Text, codes, str_eq, Option,
  none, some, List, [], ◌∷◌, ◌++◌, if◌then◌else◌,
}
use trunnion.Fault.{Result, ok, err, ◌>>=◌, file_unreadable}
use trunnion.Json.{Digest}
use trunnion.Secrets.{contains}

pub record Node : Type 0 where
  pub path : Text
  pub content_hash : Text
  pub symbols : List Text
  pub size : ℕ

pub record Retrieval : Type 0 where
  pub hits : List Text
  pub bytes_read : ℕ
  pub stale_reread : List Text

abbrev pub Files : Type 0
Files = Text → Option (List ℕ)

unfoldable pub is_word : ℕ → Bool
is_word c =
    (leb b'a' c && leb c b'z')
    || (leb b'A' c && leb c b'Z')
    || (leb b'0' c && leb c b'9')
    || c == b'_'

-- The order of a `BTreeSet` of texts, and its insertion and removal.
unfoldable pub text_lt : Text → Text → Bool
text_lt [] [] = false
text_lt [] (_ ∷ _) = true
text_lt (_ ∷ _) [] = false
text_lt (a ∷ s) (b ∷ t) = ltb a b || (a == b && text_lt s t)

unfoldable pub insert_text : Text → List Text → List Text
unfolding str_eq text_lt
insert_text t [] = t ∷ []
insert_text t (u ∷ us) = elim (str_eq t u) [
  | true ↦ u ∷ us
  | false ↦ elim (text_lt t u) [ true ↦ t ∷ u ∷ us | false ↦ u ∷ insert_text t us ]
]

unfoldable pub remove_text : Text → List Text → List Text
unfolding str_eq
remove_text t [] = []
remove_text t (u ∷ us) = elim (str_eq u t) [
  | true ↦ remove_text t us
  | false ↦ u ∷ remove_text t us
]

unfoldable pub keep_symbol : Text → List Text → List Text
unfolding insert_text
keep_symbol cur out = elim (leb 4 (length cur)) [ true ↦ insert_text cur out | false ↦ out ]

-- The loop of `symbols_in`, with the word so far and the set.
unfoldable pub collect : Text → List Text → Text → List Text
unfolding is_word keep_symbol
collect cur out [] = keep_symbol cur out
collect cur out (c ∷ s) = elim (is_word c) [
  | true ↦ collect (cur ++ c ∷ []) out s
  | false ↦ collect [] (keep_symbol cur out) s
]

unfoldable pub symbols_in : Text → List Text
unfolding collect
symbols_in text = collect [] [] text

-- `split` at the bytes that are in no word, and the test of the flat scan.
unfoldable pub split_words : Text → Text → List Text
unfolding is_word
split_words cur [] = cur ∷ []
split_words cur (c ∷ s) = elim (is_word c) [
  | true ↦ split_words (cur ++ c ∷ []) s
  | false ↦ cur ∷ split_words [] s
]

unfoldable pub has_word : Text → Text → Bool
unfolding split_words str_eq
has_word text symbol = contains (split_words [] text) symbol

module _ (d : Digest) where
  unfoldable pub hash_bytes : List ℕ → Text
  hash_bytes bytes = codes "sha256:" ++ d.hex (d.sha256 bytes)

  unfoldable pub node_of : Text → List ℕ → Node
  unfolding hash_bytes symbols_in
  node_of path bytes = record {
    path = path;
    content_hash = hash_bytes bytes;
    symbols = symbols_in bytes;
    size = length bytes;
  }

  -- `Graph::build`.
  unfoldable pub build : Files → List Text → Result (List Node)
  unfolding node_of
  build files [] = ok []
  build files (path ∷ paths) = elim (files path) [
    | none ↦ err (file_unreadable path)
    | some bytes ↦ do nodes ← build files paths; ok (node_of path bytes ∷ nodes)
  ]

  lengths : List Text → ℕ
  lengths [] = 0
  lengths (t ∷ ts) = length t + lengths ts

  unfoldable pub index_bytes : List Node → ℕ
  unfolding lengths
  index_bytes [] = 0
  index_bytes (n ∷ nodes) =
      length n.path + length n.content_hash + lengths n.symbols + index_bytes nodes

  abbrev note_hit : Text → Bool → List Text → List Text
  note_hit path true hits = insert_text path hits
  note_hit path false hits = hits

  -- The check of a node against its file as it is now.
  unfoldable pub check_node : Node → Text → Option (List ℕ) → Retrieval → Retrieval
  unfolding hash_bytes has_word insert_text remove_text str_eq
  check_node node symbol none r = r
  check_node node symbol (some bytes) r = elim (str_eq (hash_bytes bytes) node.content_hash) [
    | true ↦ r
    | false ↦ record {
      hits = elim (has_word bytes symbol) [
        | true ↦ insert_text node.path r.hits
        | false ↦ remove_text node.path r.hits
      ];
      bytes_read = r.bytes_read + length bytes;
      stale_reread = r.stale_reread ++ node.path ∷ [];
    }
  ]

  unfoldable pub visit : Files → Text → Bool → Node → Retrieval → Retrieval
  unfolding check_node insert_text str_eq
  visit files symbol verify_stale node r =
      let noted = record r { hits = note_hit node.path (contains node.symbols symbol) r.hits } in
      if verify_stale then check_node node symbol (files node.path) noted else noted

  unfoldable pub visit_all : Files → Text → Bool → List Node → Retrieval → Retrieval
  unfolding visit
  visit_all files symbol verify_stale [] r = r
  visit_all files symbol verify_stale (node ∷ nodes) r =
      visit_all files symbol verify_stale nodes (visit files symbol verify_stale node r)

  -- `Graph::query`.
  unfoldable pub query : Files → List Node → Text → Bool → Retrieval
  unfolding visit_all index_bytes
  query files nodes symbol verify_stale =
      visit_all files symbol verify_stale nodes
        (record { hits = []; bytes_read = index_bytes nodes; stale_reread = [] })

  unfoldable pub is_stale : Node → Option (List ℕ) → Bool
  unfolding hash_bytes str_eq
  is_stale node none = true
  is_stale node (some bytes) = not (str_eq (hash_bytes bytes) node.content_hash)

  unfoldable pub stale_nodes : Files → List Node → List Text
  unfolding is_stale
  stale_nodes files [] = []
  stale_nodes files (n ∷ nodes) = elim (is_stale n (files n.path)) [
    | true ↦ n.path ∷ stale_nodes files nodes
    | false ↦ stale_nodes files nodes
  ]

-- The loop of `flat_query`.
unfoldable pub flat_on : Files → Text → List Text → Retrieval → Result Retrieval
unfolding has_word insert_text
flat_on files symbol [] r = ok r
flat_on files symbol (path ∷ paths) r = elim (files path) [
  | none ↦ err (file_unreadable path)
  | some bytes ↦ flat_on files symbol paths (record {
    hits = elim (has_word bytes symbol) [ true ↦ insert_text path r.hits | false ↦ r.hits ];
    bytes_read = r.bytes_read + length bytes;
    stale_reread = r.stale_reread;
  })
]

unfoldable pub flat_query : Files → List Text → Text → Result Retrieval
unfolding flat_on
flat_query files paths symbol =
    flat_on files symbol paths (record { hits = []; bytes_read = 0; stale_reread = [] })
