-- ===== src/Runlog/Numbered.antt =====
-- src/runlog.rs: the numbers and the ids of the events of a run, over appends that end well and that fail.
use trunnion.Prelude.{
  ℕ, ◌+◌, ◌≤◌, Text, codes, decimal, decimal-injective, ◌++◌, ◌≡◌, ◌≢◌, refl, sym, ap, ◌∙◌, arith,
}
use mathlib.Core.List.{append_cancel_left}
use trunnion.Fault.{Result, ok, err}
use trunnion.Json.{Json, Digest}
use trunnion.Keys.{Keys}
use trunnion.Event.{NewEvent}
use trunnion.Runlog.{Book, Core, event_id, new_event, attested, booked, book_event, append}
use trunnion.Runlog.Recorded.{append-IsAppended}

module _ (j : Json) (d : Digest) (keys : Keys) (book : Book j) (clock : ℕ → Text) where
  event_id-injective :
      (run_id : Text) (m n : ℕ)
      → event_id j d keys book clock run_id m ≡ event_id j d keys book clock run_id n
      → m ≡ n
  unfolding event_id
  event_id-injective run_id m n e =
      let tail : codes "-" ++ decimal m ≡ codes "-" ++ decimal n =
        append_cancel_left run_id _ _ e in
      decimal-injective m n cc

  -- The number after an append, whatever the append ends with.
  append-next :
      (kind : Text) (subject : j.Value) (core : Core j d keys book clock)
      → ((append j d keys book clock kind subject core).0.next_seq ≡ core.next_seq + 1)
        × ((append j d keys book clock kind subject core).0.run_id ≡ core.run_id)
  unfolding append book_event booked
  append-next kind subject core =
      by_event
        (attested j d keys book clock core.signer (new_event j d keys book clock core kind subject))
    where
      moved : Core j d keys book clock
      moved = record core { next_seq = core.next_seq + 1 }

      id : Text
      id = (new_event j d keys book clock core kind subject).id

      by_store :
          (r : book.Store × Result (Unit {0}))
          → ((booked j d keys book clock moved id r).0.next_seq ≡ core.next_seq + 1)
            × ((booked j d keys book clock moved id r).0.run_id ≡ core.run_id)
      by_store (store, err fault) = (refl, refl)
      by_store (store, ok _) = (refl, refl)

      by_event :
          (r : Result (NewEvent j.Value))
          → ((book_event j d keys book clock moved r id).0.next_seq ≡ core.next_seq + 1)
            × ((book_event j d keys book clock moved r id).0.run_id ≡ core.run_id)
      by_event (err fault) = (refl, refl)
      by_event (ok ev) = by_store (book.append ev core.ledger)

  -- What a core becomes by appends.
  pub data Later (core : Core j d keys book clock) : Core j d keys book clock → Type 0 where
    now : Later core core
    after :
        {between : Core j d keys book clock}
        → Later core between
        → (kind : Text) (subject : j.Value)
        → Later core (append j d keys book clock kind subject between).0

  Later-next :
      {core later : Core j d keys book clock}
      → Later core later
      → (core.next_seq ≤ later.next_seq) × (later.run_id ≡ core.run_id)
  Later-next now = (omega arith, refl)
  Later-next (after {between = between} so_far kind subject) =
      let (low, same) = Later-next so_far in
      let (next, kept) = append-next kind subject between in (omega arith, kept ∙ same)

  -- No two events of a run have the same id: an event that is appended at any time after another, with any
  -- appends between them, has another id.
  pub Later-id_differs :
      (kind kind2 : Text) (subject subject2 : j.Value)
      (first second third fourth : Core j d keys book clock) (id id2 : Text)
      → append j d keys book clock kind subject first ≡ (second, ok id)
      → Later second third
      → append j d keys book clock kind2 subject2 third ≡ (fourth, ok id2)
      → id ≢ id2
  Later-id_differs kind kind2 subject subject2 first second third fourth id id2 h later h2 same =
      let one = append-IsAppended j d keys book clock kind subject first second id h in
      let two = append-IsAppended j d keys book clock kind2 subject2 third fourth id2 h2 in
      let (low, run) = Later-next later in
      let ids : event_id j d keys book clock first.run_id first.next_seq
          ≡ event_id j d keys book clock first.run_id third.next_seq =
        sym one.named
        ∙ same
        ∙ two.named
        ∙ ap (λ r. event_id j d keys book clock r third.next_seq) (run ∙ one.same_run) in
      let equal = event_id-injective first.run_id first.next_seq third.next_seq ids in
      let step = one.moved in omega arith
