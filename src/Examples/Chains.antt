-- ===== src/Examples/Chains.antt =====
-- The theorems on the chain of pending nodes and on its votes, applied to four nodes in a row.
use hot_iron_oxide.Base.{
  ℕ, zero, suc, ◌-◌, ◌≡◌, ◌↔◌, refl, true, false, Option, none, some, List, [], ◌∷◌, ok, arith,
  length, ℕ_discrete,
}
use hot_iron_oxide.Base.Map
use hot_iron_oxide.Base.Maximum.{max_by_key, max_from}
use hot_iron_oxide.Examples.{toy, four}
use hot_iron_oxide.View.{quorum}
use hot_iron_oxide.Tree.{DecisionNodeHeader}
use hot_iron_oxide.HotIron.Log.{done}
use hot_iron_oxide.Chained.Messages.{ChainedQc, ChainedDecisionNode, VoteDetails, VoteMessage}
use hot_iron_oxide.Chained.Tree.{PendingDecisionNodes, get_node, is_extension_of_known_node}
use hot_iron_oxide.Chained.Tree.Numbers.{back_from, NoRepeat}
use hot_iron_oxide.Chained.Tree.Extension.{Extends, is_extension_of_known_node-Extends}
use hot_iron_oxide.Chained.Log.{VoteStore, default_vote_store, accept_vote, certify, get_quorum_qc}
use hot_iron_oxide.Quorum.{get_quorum_for_n, get_f_for_n}
use hot_iron_oxide.Chained.Log.Quorums.{Collected, Certifies, get_quorum_qc-Certifies}
use hot_iron_oxide.Chained.Protocol.Totality.{IsLinked, AllLinked}

-- The node of this number, whose digest is the number too, with a certificate for the one before.
abbrev pub header_at : ℕ → Option ℕ → DecisionNodeHeader
header_at n previous = record {
  view_no = n;
  previous_block = previous;
  current_block_digest = n;
  contained_client_commands = 1;
}

abbrev pub qc_for : ℕ → DecisionNodeHeader → ChainedQc
qc_for n header = record { seq_no = n; decision_node = header; signature = 3 }

abbrev pub node_of : DecisionNodeHeader → Option ChainedQc → ChainedDecisionNode
node_of header justify = record {
  node = record { decision_header = header; client_commands = header.view_no ∷ [] };
  justify = justify;
}

abbrev pub root : DecisionNodeHeader
root = header_at 10 none

abbrev pub second : DecisionNodeHeader
second = header_at 11 (some 10)

abbrev pub third : DecisionNodeHeader
third = header_at 12 (some 11)

abbrev pub fourth : DecisionNodeHeader
fourth = header_at 13 (some 12)

abbrev pub row : PendingDecisionNodes
row = record {
  nodes =
      (10, node_of root none)
      ∷ (11, node_of second (some (qc_for 10 root)))
      ∷ (12, node_of third (some (qc_for 11 second)))
      ∷ (13, node_of fourth (some (qc_for 12 third)))
      ∷ [];
}

pub row-AllLinked : AllLinked row
unfolding get_node
row-AllLinked digest node h =
    Map.get-All ℕ_discrete (λ (e : ℕ × ChainedDecisionNode). IsLinked e.1) digest row.nodes
      (
        IsLinked.root refl refl,
        (
          IsLinked.leaf (qc_for 10 root) refl refl,
          (
            IsLinked.leaf (qc_for 11 second) refl refl,
            (IsLinked.leaf (qc_for 12 third) refl refl, tt),
          ),
        ),
      )
      h

back_from-monus : (i s : ℕ) → back_from i s ≡ s - i
back_from-monus zero s = omega arith
back_from-monus (suc i) s = omega (arith, back_from-monus i s)

row-NoRepeat : NoRepeat (suc (length row.nodes)) fourth.view_no
row-NoRepeat i j below within same =
    absurd (omega (arith, back_from-monus i 13, back_from-monus j 13, same))

is_extension_of_known_node-Extends_example :
    (is_extension_of_known_node row fourth none ≡ true) ↔ Extends row none fourth
is_extension_of_known_node-Extends_example =
    is_extension_of_known_node-Extends row none fourth row-NoRepeat

-- Three nodes vote for the second node.
abbrev details : VoteDetails
details = record { node = second; justify = some (qc_for 10 root) }

abbrev vote_of : ℕ → VoteMessage
vote_of signature = record { vote_details = details; signature = signature }

abbrev store_of : List (ℕ × ℕ) → VoteStore
store_of votes = record { votes = (details, votes) ∷ []; proposed = false }

abbrev three_votes : VoteStore
three_votes = store_of ((1, 21) ∷ (2, 22) ∷ (3, 23) ∷ [])

first_vote : (accept_vote default_vote_store 1 (vote_of 21)).1 ≡ store_of ((1, 21) ∷ [])
unfolding accept_vote Map.get_or_default Map.insert Map.get
first_vote = refl

second_vote :
    (accept_vote (store_of ((1, 21) ∷ [])) 2 (vote_of 22)).1 ≡ store_of ((1, 21) ∷ (2, 22) ∷ [])
unfolding accept_vote Map.get_or_default Map.insert Map.get
second_vote = ground arith

third_vote : (accept_vote (store_of ((1, 21) ∷ (2, 22) ∷ [])) 3 (vote_of 23)).1 ≡ three_votes
unfolding accept_vote Map.get_or_default Map.insert Map.get
third_vote = ground arith

three_votes-Collected :
    Collected ((3, vote_of 23) ∷ (2, vote_of 22) ∷ (1, vote_of 21) ∷ []) three_votes
three_votes-Collected =
    rw (← third_vote, ← second_vote, ← first_vote)
      (Collected.vote 3 (vote_of 23)
        (Collected.vote 2 (vote_of 22) (Collected.vote 1 (vote_of 21) Collected.start)))

abbrev of_three : ChainedQc
of_three = record { seq_no = 0; decision_node = second; signature = 3 }

three_votes-quorum : get_quorum_qc three_votes four ≡ ok (done of_three)
unfolding get_quorum_qc max_by_key max_from certify quorum get_quorum_for_n get_f_for_n
three_votes-quorum = refl

get_quorum_qc-Certifies_example :
    Certifies ((3, vote_of 23) ∷ (2, vote_of 22) ∷ (1, vote_of 21) ∷ []) four of_three
get_quorum_qc-Certifies_example =
    get_quorum_qc-Certifies four of_three three_votes-Collected three_votes-quorum
