-- ===== src/Crdt/PnCounter/Laws.antt =====
-- The merge of src/crdt/pncounter.rs as a join of states.
use delta_stream.Common.{◌≡◌, ap₂}
use delta_stream.Crdt.GCounter.{GCounter}
use delta_stream.Crdt.GCounter.Laws.{IsCounter, merge_comm, merge_assoc, merge_idem}
use delta_stream.Crdt.PnCounter.{PnCounter, merge}

-- Both halves are kept as a `BTreeMap` keeps them.
abbrev pub IsPnCounter : PnCounter → Type 0
IsPnCounter c = IsCounter c.positive × IsCounter c.negative

abbrev of_halves : GCounter → GCounter → PnCounter
of_halves p n = record { positive = p; negative = n }

-- The merge of counters that also count down, with their keys in order, does not depend on the
-- order of two or on the grouping of three, and merging a counter with itself changes nothing.
pub pn_merge_laws :
    (a b c : PnCounter)
    → IsPnCounter a
    → IsPnCounter b
    → IsPnCounter c
    → ((merge a b).0 ≡ (merge b a).0)
      × ((merge (merge a b).0 c).0 ≡ (merge a (merge b c).0).0)
      × ((merge a a).0 ≡ a)
unfolding merge
pn_merge_laws a b c ha hb hc = (
  ap₂ of_halves (merge_comm a.positive b.positive ha.0 hb.0)
      (merge_comm a.negative b.negative ha.1 hb.1),
  ap₂ of_halves (merge_assoc a.positive b.positive c.positive ha.0 hb.0 hc.0)
      (merge_assoc a.negative b.negative c.negative ha.1 hb.1 hc.1),
  ap₂ of_halves (merge_idem a.positive ha.0) (merge_idem a.negative ha.1),
)
