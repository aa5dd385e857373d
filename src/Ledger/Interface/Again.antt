-- ===== src/Ledger/Interface/Again.antt =====
-- Reads that are made again: where the page is the same, and on a stream that has grown.
use kolyan.Prelude.{
  ℕ, ◌≡◌, ◌≢◌, ◌≤◌, ◌<◌, sym, ap, subst, ◌∙◌, String, String-discrete, List, [], ◌∷◌, ◌++◌, leb,
  if◌then◌else◌, ok, arith,
}
use kolyan.Ledger.{FactRecord}
use kolyan.Ledger.Interface.{FactJournal}
use kolyan.Ledger.Interface.Laws.{page, Laws}
use kolyan.Ledger.Interface.Pages.{page_one-append}

-- What a journal gives of a limit.
abbrev pub capped : (cap n : ℕ) → ℕ
capped cap n = if leb n cap then n else cap

module _ {J V : Type 0} {journal : FactJournal J V} {rows : J → String → List (FactRecord V)}
    {IsWell : J → Type 0} {cap : ℕ} (laws : Laws journal rows IsWell cap) where
  pub reads_again :
      (j k : J) (stream : String) (after n : ℕ) (found : List (FactRecord V))
      → 0 < n
      → n ≤ 1024
      → page (capped cap n) after (rows j stream) ≡ page (capped cap n) after (rows k stream)
      → journal.read j stream after n ≡ ok found
      → journal.read k stream after n ≡ ok found
  reads_again j k stream after n found low high same h =
      let (other, answered) =
        laws.answers k stream after n (laws.read_names j stream after n found h) low high in
      answered
      ∙ ap ok (
          laws.reads k stream after n other answered
          ∙ sym same
          ∙ sym (laws.reads j stream after n found h))

  module _ (j k : J) (task_id : String) (more : List (FactRecord V))
      (grown : rows k task_id ≡ rows j task_id ++ more)
      (others : (stream : String) → task_id ≢ stream → rows k stream ≡ rows j stream) where
    pub one_again :
        (stream : String) (after : ℕ) (found : FactRecord V)
        → journal.read j stream after 1 ≡ ok (found ∷ [])
        → journal.read k stream after 1 ≡ ok (found ∷ [])
    one_again stream after found h =
        let shown = laws.reads j stream after 1 (found ∷ []) h in
        reads_again j k stream after 1 (found ∷ []) (omega arith) (omega arith)
          (elim (String-discrete task_id stream) [
            | yes e ↦
                let grown' = subst (λ w. rows k w ≡ rows j w ++ more) e grown in
                sym shown
                ∙ sym (
                    ap (page (capped cap 1) after) grown'
                    ∙ page_one-append (capped cap 1) after (rows j stream) more found
                        (ground (arith, laws.cap_positive)) (sym shown))
            | no d ↦ ap (page (capped cap 1) after) (sym (others stream d))
          ])
          h
