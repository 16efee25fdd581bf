-- ===== src/Lib.antt =====
-- The two ordering protocols: hot_iron, HotStuff with one decision at a time, and the chained one,
-- in which a decision of each view is made while the next ones are under way.
--
-- A node of a quorum of replicas takes part in a decision for each view. It sends its vote for the new
-- view to the leader; the leader counts votes, and with a quorum of them it makes a certificate and
-- proposes to all; each node answers the proposal of its phase with a vote, and after the fourth
-- proposal the decision is made. The phases are Prepare, PreCommit, Commit and Decide.
-- In the chained protocol a decision has one proposal only, whose votes go to the leader of the next
-- view; that one makes a certificate of them and proposes a node on it. A node that is pending and
-- three certificates deep is decided: each new node moves the decisions before it forward.
--
-- The parts of the program, and the files that model them:
--   src/lib.rs (get_n_for_f, get_quorum_for_n, get_f_for_n): Quorum, with its bounds in
--     Quorum/Bounds and the replicas that quorums share in Quorum/Intersection.
--   src/crypto (QuorumInfo, AtlasTHCryptoProvider): Crypto, and Crypto/Signing. The protocols only see
--     one node's signing and the combining, which Atlas has.
--   src/view (View, RoundRobinLA): View; which views can be made is in View/Rotation.
--   src/decision_tree (DecisionNodeHeader, DecisionNode, DecisionHandler): Tree, and Tree/Digests.
--   src/req_aggr (RequestAggr): Requests; the events of its thread and its callers, Requests/Flow.
--   src/hot_iron/messages, src/hot_iron/protocol/mod.rs (votes, proposals, QC): HotIron/Messages.
--   src/hot_iron/protocol/msg_queue (HotStuffTBOQueue): HotIron/Queue, and the files below it.
--   src/hot_iron/protocol/log (MsgDecisionLog, VoteStore, NewViewStore): HotIron/Log and below.
--   src/hot_iron/protocol/decision (HSDecision): HotIron/Decision has the state, its queries and poll;
--     Decision/Leader has process_message_leader, Decision/Replica process_message_replica and
--     finalize_decision, Decision/Dispatch process_message and the eight methods of a phase and role.
--     Decision/Phases, Rules and Polling are the rules that the proofs about a call apply;
--     Decision/Totality, Progress, Counting, Proposal and History are such proofs.
--   src/hot_iron/protocol/hotstuff.rs (HotStuffProtocol, Signals): HotIron/Signals, HotIron/Protocol,
--     and Protocol/Handling with poll and process_message; Protocol/Fuel is about its loops, and
--     Protocol/Readiness and Reception about the protocol while it has one decision.
--   src/hot_iron/protocol/proof (Proof) and src/hot_iron/loggable_protocol.rs: HotIron/Proof, and
--     Proof/Storage.
--   src/hot_iron/mod.rs (HotIron and its trait implementations): HotIron/Entry.
--   src/chained/messages, ChainedQC of src/chained/mod.rs, ChainedDecisionNode: Chained/Messages.
--   src/chained/chained_decision_tree.rs (PendingDecisionNodes): Chained/Tree, and Tree/Extension,
--     with Tree/Numbers, about is_extension_of_known_node.
--   src/chained/protocol/log (NewViewStore, VoteStore): Chained/Log, and Log/Quorums.
--   src/chained/protocol/msg_queue: Chained/Queue.
--   src/chained/protocol/decision (ChainedDecision): Chained/Decision has the states, poll,
--     advance_state and finalize, Decision/Handling the processing of a message; Decision/Advance is
--     about the states, Decision/Polling about poll, and Decision/Conduct, Roles, Leading and
--     Totality about a message processed.
--   src/chained/protocol/mod.rs (ChainedHotStuffProtocol): Chained/Protocol has the list of decisions,
--     its construction, install_view and finalize; Protocol/Chain has chain_link and node_chain,
--     Protocol/Handling poll and process_message. Protocol/Links, Following, Commit, Downward,
--     Reaching and Totality are about the chain of certificates, Protocol/Pipeline, Alike, Popping
--     and Finalizing about the list of decisions, Protocol/Installing about install_view,
--     Protocol/Turns, Waiting and Polling about poll, and Protocol/Voting and Reception about
--     process_message.
--   src/chained/proof and src/chained/loggable_protocol.rs: Chained/Proof, and Proof/Composing.
--   src/chained/mod.rs (IronChain and its trait implementations): Chained/Entry.
-- Base has the helpers, Base/Keyed those on maps by a key of their values, and Examples has the
-- theorems applied to small data.
--
-- How they interact: the protocol hands a message to the decision of its view; the decision asks its
-- log for certificates, the aggregator for requests, and the handler, which the protocol owns, whether
-- a node is safe; when it is final the protocol pops it, goes to the next view and makes a new one.
--
-- How code corresponds to definitions. A method that changes its object takes the object and returns
-- it; a decision also gets and gives back the handler, the pool of requests and what was sent, which
-- together are a World. Functions that may panic give a Run: an index out of bounds, an underflow, a
-- failed expect, unreachable!() and todo!() are its panics. Errors are values of Result. What threads
-- sign and send is appended to a list in the order of the calls. A HashMap is an association list, in
-- any order; a BinaryHeap of reversed numbers is a list in ascending order. The counters of votes and
-- the lengths are natural numbers: they stay far below the bounds of their types.
--
-- Code outside the repository is the record Atlas: sequence numbers, node ids, digests and the hash,
-- the threshold signatures of one node, the requests; the records VoteEncoding and ChainEncoding, the
-- bytes of a vote; and ThresholdScheme, the keys and signatures of all nodes. The laws that some
-- theorems take of them, SeqLaws, HashLaws and ThresholdLaws, are what the documentation of those
-- crates says.
--
-- Fuel: finalize_decisions has one turn more than there are decisions, and poll one turn more than
-- there are signals; each turn that another follows takes one of these away. The chained finalize
-- has one turn more than there are decisions too: one that is popped is replaced by a new one, and
-- that is never final. The chained poll has one turn more than there are signals.
-- is_extension_of_known_node has one turn more than there are pending nodes; pending nodes whose
-- numbers go round could make the loop longer than that, or endless.
--
-- Not modelled: what the metrics measure, the configuration and the serialization, on which the
-- protocols do not depend; Debug, Display and other derived code.
pub mod Base
pub mod Atlas
pub mod Quorum
pub mod Crypto
pub mod View
pub mod Tree
pub mod Requests
pub mod HotIron
pub mod Chained
pub mod Examples
