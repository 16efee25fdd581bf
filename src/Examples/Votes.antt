-- ===== src/Examples/Votes.antt =====
-- The theorems on logs, signals and the hashing of nodes, applied to small data.
use mathlib.Core.List.{Memᴰ}
use hot_iron_oxide.Base.{ℕ, ◌≡◌, refl, true, none, some, [], ◌∷◌, ite, inr, ℕ_discrete, Bool}
use hot_iron_oxide.Base.Maximum.{max_by_key}
use hot_iron_oxide.Examples.{toy, toy_laws, four, header}
use hot_iron_oxide.HotIron.Messages.{QcType, Qc, VoteMessage, VoteType}
use hot_iron_oxide.HotIron.Log.{
  Votes, VoteStore, NewViewStore, MsgLeaderDecisionLog, default_leader_log, log_accept_vote,
  store_generate_qc, get_high_qc, create_new_qc, done,
}
use hot_iron_oxide.HotIron.Log.Votes.{Writes, log_accept_vote-Writes}
use hot_iron_oxide.HotIron.Log.Certificates.{
  Certifies, store_generate_qc-Certifies, get_high_qc-some, create_new_qc-done, following,
}
use hot_iron_oxide.HotIron.Signals.{Signals, push_signalled, pop_signalled, contains}
use hot_iron_oxide.HotIron.Signals.Order.{
  Ascending, IsSynced, Popped, push_signalled-IsSynced, pop_signalled-IsSynced,
}

abbrev store : VoteStore
store = record {
  vote_type = QcType.prepare_vote;
  decision_nodes = (header, (1, 10) ∷ (2, 20) ∷ (3, 30) ∷ []) ∷ [];
}

abbrev certificate : Qc
certificate = record {
  qc_type = QcType.prepare_vote;
  view_seq = 0;
  decision_node = header;
  signature = 3;
}

store_generate_qc-Certifies_example : Certifies store four certificate
unfolding store_generate_qc max_by_key
store_generate_qc-Certifies_example = store_generate_qc-Certifies store four certificate refl

abbrev new_views : NewViewStore
new_views = record { new_view = (none, (1, 10) ∷ []) ∷ (some certificate, (2, 20) ∷ []) ∷ [] }

get_high_qc-some_example :
    ((votes : Votes) × Memᴰ (some certificate, votes) new_views.new_view)
    × ((other : Qc) (votes : Votes)
        → Memᴰ (some other, votes) new_views.new_view
        → toy.seq_le other.view_seq certificate.view_seq ≡ true)
unfolding get_high_qc max_by_key
get_high_qc-some_example = get_high_qc-some toy_laws new_views certificate refl

abbrev first_views : NewViewStore
first_views = record { new_view = (none, (1, 10) ∷ (2, 20) ∷ (3, 30) ∷ []) ∷ [] }

create_new_qc-done_example :
    (certificate.qc_type ≡ QcType.prepare_vote)
    × (certificate.decision_node ≡ header)
    × (certificate.view_seq ≡ following (get_high_qc first_views))
    × ((votes : Votes) × Memᴰ (get_high_qc first_views, votes) first_views.new_view
        × (toy.combine_signatures votes ≡ inr certificate.signature))
unfolding create_new_qc max_by_key
create_new_qc-done_example = create_new_qc-done first_views header certificate refl

abbrev signals : Signals
signals = record { signaled_nos = 4 ∷ []; signaled_seq_no = 4 ∷ [] }

signals-IsSynced : IsSynced signals
signals-IsSynced = record {
  agree = λ t. refl;
  ascending = Ascending.least (λ t h. cc) Ascending.empty;
}

push_signalled-IsSynced_example :
    IsSynced (push_signalled signals 2)
    × ((t : ℕ)
        → contains t (push_signalled signals 2).signaled_seq_no
          ≡ ite (ℕ_discrete t 2) true (contains t signals.signaled_seq_no))
push_signalled-IsSynced_example = push_signalled-IsSynced toy_laws signals 2 signals-IsSynced

pop_signalled-IsSynced_example : Popped signals (pop_signalled signals)
pop_signalled-IsSynced_example = pop_signalled-IsSynced toy_laws signals signals-IsSynced

-- The log of a leader that has a vote of the first node, and the vote of the second.
abbrev one_voted : MsgLeaderDecisionLog
one_voted = record default_leader_log {
  prepare_qc = record {
    vote_type = QcType.prepare_vote;
    decision_nodes = (header, (1, 10) ∷ []) ∷ [];
  };
}

abbrev second_vote : VoteMessage
second_vote = record { vote_type = VoteType.prepare_vote header; signature = 20 }

log_accept_vote-Writes_example :
    (r : Bool × MsgLeaderDecisionLog) × (log_accept_vote one_voted 2 second_vote ≡ done r)
    × Writes one_voted 2 second_vote r
log_accept_vote-Writes_example = log_accept_vote-Writes one_voted 2 second_vote
