-- ===== src/SingleNodeKafka/Sends.antt =====
-- Sends, retries of sends, and polls of what was sent.
use glome_rs.Base.{
  List, String, [], ap, arith, beq_refl, drop, drop-length, length, nat_eq, none, pair_eq, refl,
  some, string_eq, subst, sym, u64_mod, ℕ, ◌++◌, ◌+◌, ◌<◌, ◌∙◌, ◌∷◌, ◌≡◌,
}
use glome_rs.Collections.HashMap.{get, insert, get_or}
use glome_rs.Maelstrom.SimpleLog
use glome_rs.Maelstrom.SimpleLog.Log
use glome_rs.Maelstrom.SimpleLog.{Logs, append}
use glome_rs.Maelstrom.SimpleLog.Refinement.{
  Represents, number, append-Represents, read_from-Represents,
}
use glome_rs.Maelstrom.SimpleLog.Offsets.{get-append, get-poll}
use glome_rs.Maelstrom.Message.{Message, MessageBody}
use glome_rs.Maelstrom.Node.{Node}
use glome_rs.Maelstrom.Handler.Numbering.{Sound, IsSound}
use glome_rs.SingleNodeKafka.{KafkaNode, dedupe_append, handle_body, handle, handler}

module _ (V : Type 0) where
  body_Sound :
      (s : KafkaNode) (node : Node) (message : Message V) (body : MessageBody V)
      → Sound node (handle_body s node message body)
  unfolding handle_body
  body_Sound s node message (MessageBody.init n i is) = ground arith
  body_Sound s node message (MessageBody.send n k m) = ground arith
  body_Sound s node message (MessageBody.poll n o) = ground arith
  body_Sound s node message (MessageBody.commit_offsets n o) = ground arith
  body_Sound s node message (MessageBody.list_committed_offsets n k) = ground arith
  body_Sound s node message _ = ground arith

  pub handler-IsSound : IsSound (handler {V = V})
  unfolding handle
  handler-IsSound = record { sound = λ s node message. body_Sound s node message message.body }

pub known_send :
    (s : KafkaNode) (src key : String) (msg_id msg off : ℕ)
    → get (src, msg_id) s.send_dedupe ≡ some off
    → dedupe_append s src msg_id key msg ≡ (off, s)
unfolding dedupe_append
known_send s src key msg_id msg off e = rw (e, dedupe_append) refl

pub fresh_send :
    (s : KafkaNode) (src key : String) (msg_id msg : ℕ)
    → get (src, msg_id) s.send_dedupe ≡ none
    → let (off, logs) = append s.logs key msg in
      dedupe_append s src msg_id key msg
      ≡ (off, record { logs = logs; send_dedupe = insert (src, msg_id) off s.send_dedupe })
unfolding dedupe_append
fresh_send s src key msg_id msg e = rw (e, dedupe_append) refl

-- A first send by the client under its number, to a log that holds `msgs` and has room, gets the
-- offset behind them, and a poll from there gives exactly the new message.
pub send_then_poll :
    (s : KafkaNode) (src key : String) (msg_id msg : ℕ) (msgs : List ℕ)
    → get (src, msg_id) s.send_dedupe ≡ none
    → Represents (get_or Log.new key s.logs.inner) msgs
    → length msgs + 1 < u64_mod
    → let (offset, s') = dedupe_append s src msg_id key msg in
      (offset ≡ length msgs)
      × (get key (SimpleLog.poll s'.logs ((key, offset) ∷ [])) ≡ some ((offset, msg) ∷ []))
send_then_poll s src key msg_id msg msgs e r room =
    rw (fresh_send s src key msg_id msg e) (placed, polled_msg)
  where
    log : Log.Log
    log = get_or Log.new key s.logs.inner

    offset : ℕ
    offset = (append s.logs key msg).0

    placed : offset ≡ length msgs
    placed = unfold append in (append-Represents r msg room).0

    read_back : Log.read_from (Log.append log msg).1 offset none ≡ (offset, msg) ∷ []
    read_back =
        read_from-Represents (append-Represents r msg room).1 offset none
        ∙ ap (number offset) (
            subst (λ n. drop n (msgs ++ msg ∷ []) ≡ msg ∷ []) (sym placed)
              (drop-length msgs (msg ∷ [])))

    requested : get key ((key, offset) ∷ []) ≡ some offset
    requested = unfold get in rw (beq_refl key) refl

    polled_msg :
        get key (SimpleLog.poll (append s.logs key msg).1 ((key, offset) ∷ []))
        ≡ some ((offset, msg) ∷ [])
    polled_msg =
        get-poll (append s.logs key msg).1 ((key, offset) ∷ []) key (unfold get in (refl, tt))
        ∙ rw (get-append s.logs key key msg, beq_refl key, requested) (ap some read_back)
