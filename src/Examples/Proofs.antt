-- ===== src/Examples/Proofs.antt =====
-- The theorem on the storage of proofs, applied to a proof with one certificate of two types each.
use hot_iron_oxide.Base.{arith, ◌≡◌, [], ◌∷◌}
use hot_iron_oxide.Examples.{toy, header, proposal_of}
use hot_iron_oxide.HotIron.Messages.{QcType, Qc, ProposalType}
use hot_iron_oxide.HotIron.Queue.{Message}
use hot_iron_oxide.HotIron.Log.{done}
use hot_iron_oxide.HotIron.Proof.{Proof, collect_qcs, new_from_storage, decompose_proof}
use hot_iron_oxide.HotIron.Proof.Storage.{new_from_storage-decompose_proof}

abbrev certificate_of : QcType → Qc
certificate_of t = record { qc_type = t; view_seq = 0; decision_node = header; signature = 3 }

abbrev prepare : Message
prepare = proposal_of (
    ProposalType.prepare (record { decision_header = header; client_commands = [] })
      (certificate_of QcType.prepare_vote))

abbrev stored : Proof
stored = record {
  decision_node = record { decision_header = header; client_commands = [] };
  qcs =
      collect_qcs [] (certificate_of QcType.commit_vote ∷ certificate_of QcType.prepare_vote ∷ []);
  messages = prepare ∷ [];
}

stored_lem :
    new_from_storage header
      (certificate_of QcType.commit_vote ∷ certificate_of QcType.prepare_vote ∷ [])
      (prepare ∷ [])
    ≡ done stored
unfolding new_from_storage
stored_lem = ground arith

new_from_storage-decompose_proof_example :
    let (header', qcs', messages') = decompose_proof stored in
    new_from_storage header' qcs' messages' ≡ done stored
new_from_storage-decompose_proof_example =
    new_from_storage-decompose_proof header
      (certificate_of QcType.commit_vote ∷ certificate_of QcType.prepare_vote ∷ []) (prepare ∷ [])
      stored stored_lem
