-- ===== src/Journal/Graded.antt =====
-- `performance` groups the rows of an edge, no others, in their order.
use poly_bob.Base.{
  extended, extended_twice, ◌≡◌, refl, inl, inr, Option, some, none, if◌then◌else◌, arith, String,
  List, [], ◌∷◌, ◌++◌, ◌==◌, nat_eq, string_eq, get_or, is_empty, keep, Bool-cases,
}
use poly_bob.Base.Dict.{Dict, lookup, insert, lookup-insert}
use poly_bob.Base.Float.{Floats, Float}
use poly_bob.Journal.Entries.{JournalEntry, Journal}
use poly_bob.Journal.Measured.{
  list_entries, is_measured, group_by_edge, summary, summaries, performance,
}

module _ ⦃fl : Floats⦄ where
  abbrev pub of_edge : String → List JournalEntry → List JournalEntry
  of_edge edge es = keep (λ e. e.edge_id == edge) es

  lookup-group_by_edge :
      (es : List JournalEntry) (groups : Dict String (List JournalEntry)) (edge : String)
      → lookup edge (group_by_edge es groups) ≡ extended (lookup edge groups) (of_edge edge es)
  unfolding group_by_edge
  lookup-group_by_edge [] groups edge = refl
  lookup-group_by_edge (e ∷ es) groups edge =
      let group = get_or (lookup e.edge_id groups) [] ++ e ∷ [] in
      let rest = lookup-group_by_edge es (insert e.edge_id group groups) edge in
      elim (Bool-cases (e.edge_id == edge)) [
        | inl own ↦ ground (
          arith,
          rest,
          own,
          lookup-insert e.edge_id edge group groups,
          string_eq.beq_iff e.edge_id edge,
          extended_twice (lookup edge groups) e (of_edge edge es),
        )
        | inr other ↦ ground (arith, rest, other, lookup-insert e.edge_id edge group groups)
      ]

  lookup-summaries :
      (sum : List Float → Float) (j : Journal) (groups : Dict String (List JournalEntry))
      (edge : String)
      → lookup edge (summaries sum j groups)
        ≡ (elim (lookup edge groups) [ none ↦ none | some rows ↦ some (summary sum j edge rows) ])
  unfolding summaries lookup
  lookup-summaries sum j [] edge = refl
  lookup-summaries sum j ((k, rows) ∷ groups) edge =
      ground (arith, lookup-summaries sum j groups edge, string_eq.beq_iff edge k)

  pub lookup-performance :
      (sum : List Float → Float) (edge_id : Option String) (j : Journal) (edge : String)
      → let rows = of_edge edge (keep is_measured (list_entries edge_id none 10000 j)) in
        lookup edge (performance sum edge_id j)
        ≡ (if is_empty rows then none else some (summary sum j edge rows))
  unfolding performance lookup
  lookup-performance sum edge_id j edge =
      let es = keep is_measured (list_entries edge_id none 10000 j) in
      ground
        (arith, lookup-summaries sum j (group_by_edge es []) edge, lookup-group_by_edge es [] edge)
