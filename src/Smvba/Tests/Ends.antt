-- ===== src/Smvba/Tests/Ends.antt =====
-- How a node ends an epoch, and what messages and blocks carry, core/smvba/consensus/core.go and
-- message.go.
use bft_mvba.Base.{◌≡◌, refl, ◌↔◌, [], ◌∷◌, true, some, ok, arith, inc, slt}
use bft_mvba.Committee.{name_of, authority}
use bft_mvba.Crypto.{Signature, digest_bytes}
use bft_mvba.Store.{read}
use bft_mvba.Smvba.Messages.{Halt, block_bytes, spb_one_phase, vote_flag_yes}
use bft_mvba.Smvba.Signing.{
  Messgae, verify_message, new_spb_proposal, new_spb_vote, new_finish, new_done, new_elect_share,
  new_prevote, new_fin_vote, new_halt,
}
use bft_mvba.Base.{==_refl, lookup, insert, remove}
use bft_mvba.Crypto.{be_bytes}
use bft_mvba.Store.{serve}
use bft_mvba.Committor.{commit, drain}
use bft_mvba.Pool.{new_pool, new_tx_queue, get_batch, get, next_batch}
use bft_mvba.Smvba.Spb.{new_spb, get_block_hash}
use bft_mvba.Smvba.Core.{
  get_spb_instance, commit_block, advance_next_epoch, generator_block, handle_output,
}
use bft_mvba.Smvba.Core.{Core, new_core, handle_halt, get_block}
use bft_mvba.Smvba.Halts.{one_halt_decides}
use bft_mvba.Smvba.Signatures.{HasKeys, new_messages_verify}
use bft_mvba.Smvba.Blocks.{block_bytes_iff}
use bft_mvba.Fixtures.{four, service, node, pool}
use bft_mvba.Smvba.Tests.Fixtures.{services, block_of}

abbrev unsigned : Signature
unsigned = record { sig = [] }

-- A node that holds the block of digest 5 under its key, and one that holds nothing.
abbrev empty_node : Core
empty_node = new_core node [] pool

abbrev full_node : Core
full_node = record empty_node { store = (digest_bytes 5, 1 ∷ 0 ∷ 1 ∷ []) ∷ [] }

abbrev halt_of : Halt
halt_of = record {
  author = 2;
  epoch = 0;
  round = 0;
  leader = 1;
  block_hash = 5;
  signature = unsigned;
}

halt_found : (handle_halt services halt_of full_node).0 ≡ ok tt
unfolding handle_halt get_block read serve digest_bytes be_bytes new_core slt commit drain lookup
    insert remove inc new_pool new_tx_queue get_batch get next_batch get_spb_instance new_spb
    get_block_hash commit_block advance_next_epoch generator_block handle_output
halt_found = refl

one_halt_decides_example :
    ((handle_halt services halt_of full_node).1.halt_flags 0 ≡ true)
    × (slt 0 (handle_halt services halt_of full_node).1.epoch ≡ true)
one_halt_decides_example =
    one_halt_decides services full_node halt_of (unfold slt new_core in refl)
      (unfold new_core in refl) (unfold slt inc in refl) halt_found

node_keys : HasKeys service four 2
node_keys = record {
  long = unfold name_of authority in refl;
  accepts = λ d. unfold name_of authority in ==_refl d;
}

new_messages_verify_example :
    (verify_message service four
        (Messgae.spb_proposal (new_spb_proposal service 2 (some (block_of 2 0)) 0 0 spb_one_phase))
      ≡ ok true)
    × (verify_message service four (Messgae.spb_vote (new_spb_vote service 2 1 5 0 0 spb_one_phase))
        ≡ ok true)
    × (verify_message service four (Messgae.finish (new_finish service 2 5 0 0)) ≡ ok true)
    × (verify_message service four (Messgae.done (new_done service 2 0 0)) ≡ ok true)
    × (verify_message service four (Messgae.elect_share (new_elect_share service 2 0 0)) ≡ ok true)
    × (verify_message service four (Messgae.prevote (new_prevote service 2 3 0 0 vote_flag_yes 5))
        ≡ ok true)
    × (verify_message service four (Messgae.fin_vote (new_fin_vote service 2 3 0 0 vote_flag_yes 5))
        ≡ ok true)
    × (verify_message service four (Messgae.halt (new_halt service 2 3 5 0 0)) ≡ ok true)
new_messages_verify_example =
    new_messages_verify service four 2 1 3 (some (block_of 2 0)) 5 0 0 spb_one_phase vote_flag_yes
      node_keys

block_bytes_iff_example :
    (block_bytes (block_of 1 4)
      ≡ block_bytes (record (block_of 1 4) { batch = record { id = 1; txs = (9 ∷ []) ∷ [] } }))
    ↔ ((block_of 1 4).batch.id ≡ 1)
block_bytes_iff_example =
    block_bytes_iff (block_of 1 4)
      (record (block_of 1 4) { batch = record { id = 1; txs = (9 ∷ []) ∷ [] } }) refl refl
      (omega arith) (omega arith)
