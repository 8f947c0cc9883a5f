-- ===== src/ReplyBuffer/Tests.antt =====
-- Runs of a reply buffer.
use yedis.Prelude.{◌≡◌, refl, some, ◌++◌, false, replicate, arith, codes}
use yedis.Format
use yedis.Outcome.{done, fault}
use yedis.Prelude.Memory.{overwrite, overlay}
use yedis.ReplyBuffer.{
  ReplyBuffer, new_reply, held, grow, assure_space, push_data, push_data_at, shrink,
}
use yedis.ReplyBuffer.Grow.{IsReply}
use yedis.ReplyBuffer.Queue.{Holds, push_data_lem}

new_reply-IsReply : IsReply new_reply
new_reply-IsReply = record { ordered = omega arith; within = omega arith }

-- The first growth is to 64 bytes.
push_data-grows :
    push_data (some (codes "+OK")) new_reply
    ≡ done (3, record { read_pos = 0; write_pos = 3; vec_buffer = codes "+OK" ++ replicate 61 0 })
unfolding push_data push_data_at assure_space grow overwrite overlay
push_data-grows = refl

-- The assertion of `shrink` fails for a vector that has more capacity than bytes.
shrink-capacity : shrink 8 false (record new_reply { vec_buffer = replicate 7 0 }) ≡ fault
unfolding shrink
shrink-capacity = refl

push_data_lem_example :
    (rb' : ReplyBuffer) × (push_data (some (codes "+OK")) new_reply ≡ done (3, rb'))
    × Holds rb' (Format.push_data (codes "+OK") (held new_reply))
push_data_lem_example = push_data_lem (codes "+OK") new_reply new_reply-IsReply (omega arith)
