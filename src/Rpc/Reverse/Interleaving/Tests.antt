-- ===== src/Rpc/Reverse/Interleaving/Tests.antt =====
-- One call to the page, its reply and its return.
use godash.Common.{◌≡◌, ◌⊎◌, refl, true, false, none, some, [], ◌∷◌, arith}
use godash.Common.Maps.{update}
use godash.Common.Assoc.{lookup, store, erase}
use godash.Rpc.Reverse.{
  open_call, send, receive_reverse_response, unknown_port, passed, buffered, take_reply,
}
use godash.Rpc.Reverse.Interleaving.{
  System, start, after_open, settle, after_reply, after_return, opens, replies, returns, Reach,
  here, next,
}
use godash.Rpc.Reverse.Interleaving.Replies.{reply_delivered, reply_of_caller, no_entry_left}

abbrev opened : System
opened = after_open start

opened-Reach : Reach opened
unfolding start
opened-Reach = next here (opens (omega arith))

abbrev replied : System
replied = after_reply opened 1 (9 ∷ [])

replied-Reach : Reach replied
replied-Reach = next opened-Reach (replies 1 (9 ∷ []))

opened-waiting : opened.waiting 1 ≡ true
unfolding start after_open open_call update
opened-waiting = refl

replied-waiting : replied.waiting 1 ≡ true
unfolding start after_open open_call update after_reply settle receive_reverse_response send lookup
    store erase
replied-waiting = refl

replied-payload : (take_reply replied.reverse 1).0 ≡ some (9 ∷ [])
unfolding start after_open open_call update after_reply settle receive_reverse_response send lookup
    store erase take_reply
replied-payload = refl

returned-idle : (after_return replied 1).waiting 1 ≡ false
unfolding after_return update
returned-idle = refl

reply_delivered_example :
    (receive_reverse_response opened.reverse 1 (9 ∷ []) ≡ (unknown_port, opened.reverse))
    ⊎ ((opened.waiting 1 ≡ true)
        × ((receive_reverse_response opened.reverse 1 (9 ∷ [])).0 ≡ passed buffered)
        × ((take_reply (receive_reverse_response opened.reverse 1 (9 ∷ [])).1 1).0 ≡ some (9 ∷ [])))
reply_delivered_example = reply_delivered opened 1 (9 ∷ []) opened-Reach

reply_of_caller_example : replied.accepted 1 ≡ some (9 ∷ [])
reply_of_caller_example =
    reply_of_caller replied 1 (9 ∷ []) replied-Reach replied-waiting replied-payload

no_entry_left_test : lookup 1 (after_return replied 1).reverse.reverse_pending ≡ none
no_entry_left_test =
    no_entry_left (after_return replied 1) 1
      (next replied-Reach (returns 1 (9 ∷ []) replied-waiting replied-payload)) returned-idle
