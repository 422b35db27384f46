-- ===== src/Http/WebSocket/Queues/Order.antt =====
-- The consumer's calls keep the queues in step, and take what has waited longest.
use elio.Prelude.{ℕ, ◌+◌, ◌≡◌, refl, List, [], ◌∷◌, length, arith, some, none, ◌⊎◌, inl, inr}
use elio.Http.WebSocket.Opcode.{Opcode}
use elio.Http.WebSocket.Parser.{FrameParser, Message, QueuedFrameKind, message, control}
use elio.Http.WebSocket.Parser.Invariant.{IsValid, messages_in, controls_in}
use elio.Http.WebSocket.Queues.{
  remove_first, get_message, get_control_frame, get_next_message, get_next_control_frame,
}

remove_first-message :
    (ks : List QueuedFrameKind)
    → (messages_in ks ≡ 1 + messages_in (remove_first message ks) ⊎ (messages_in ks ≡ 0))
      × (controls_in (remove_first message ks) ≡ controls_in ks)
unfolding remove_first
remove_first-message [] = (inr refl, refl)
remove_first-message (message ∷ ks) = (inl (omega arith), refl)
remove_first-message (control ∷ ks) = ground (arith, remove_first-message ks)

remove_first-control :
    (ks : List QueuedFrameKind)
    → (controls_in ks ≡ 1 + controls_in (remove_first control ks) ⊎ (controls_in ks ≡ 0))
      × (messages_in (remove_first control ks) ≡ messages_in ks)
unfolding remove_first
remove_first-control [] = (inr refl, refl)
remove_first-control (control ∷ ks) = (inl (omega arith), refl)
remove_first-control (message ∷ ks) = ground (arith, remove_first-control ks)

-- What is still to be read, in the order of arrival.
pub data Item : Type 0 where
  msg : Message → Item
  ctl : Opcode × List ℕ → Item

-- The queues merged by the kinds.
unfoldable pub merge : List QueuedFrameKind → List Message → List (Opcode × List ℕ) → List Item
merge [] ms cs = []
merge (message ∷ ks) [] cs = []
merge (message ∷ ks) (m ∷ ms) cs = msg m ∷ merge ks ms cs
merge (control ∷ ks) ms [] = []
merge (control ∷ ks) ms (c ∷ cs) = ctl c ∷ merge ks ms cs

abbrev pub items : FrameParser → List Item
items p = merge p.queued p.messages p.control_frames

pub get_message-IsValid : (p : FrameParser) → IsValid p → IsValid (get_message p).1
unfolding get_message
get_message-IsValid p v = ground (arith, remove_first-message p.queued)

pub get_control_frame-IsValid : (p : FrameParser) → IsValid p → IsValid (get_control_frame p).1
unfolding get_control_frame
get_control_frame-IsValid p v = ground (arith, remove_first-control p.queued)

pub get_next_message-IsValid : (p : FrameParser) → IsValid p → IsValid (get_next_message p).1
unfolding get_next_message
get_next_message-IsValid p v = ground arith

pub get_next_control_frame-IsValid :
    (p : FrameParser) → IsValid p → IsValid (get_next_control_frame p).1
unfolding get_next_control_frame
get_next_control_frame-IsValid p v = ground arith

-- What the two calls that follow the wire order give, when `items` are to be read.
abbrev pub NextIs : FrameParser → List Item → Type 0
NextIs p [] = (get_next_message p ≡ (none, p)) × (get_next_control_frame p ≡ (none, p))
NextIs p (msg m ∷ rest) =
    (get_next_control_frame p ≡ (none, p))
    × ((get_next_message p).0 ≡ some m)
    × (items (get_next_message p).1 ≡ rest)
NextIs p (ctl c ∷ rest) =
    (get_next_message p ≡ (none, p))
    × ((get_next_control_frame p).0 ≡ some c)
    × (items (get_next_control_frame p).1 ≡ rest)

next_of :
    (p : FrameParser) (ks : List QueuedFrameKind) (ms : List Message) (cs : List (Opcode × List ℕ))
    → p.queued ≡ ks
    → p.messages ≡ ms
    → p.control_frames ≡ cs
    → messages_in ks ≡ length ms
    → controls_in ks ≡ length cs
    → NextIs p (merge ks ms cs)
unfolding merge get_next_message get_next_control_frame
next_of p [] ms cs a b c d e = ground arith
next_of p (message ∷ ks) [] cs a b c d e = absurd (omega arith)
next_of p (message ∷ ks) (m ∷ ms) cs a b c d e = ground arith
next_of p (control ∷ ks) ms [] a b c d e = absurd (omega arith)
next_of p (control ∷ ks) ms (x ∷ cs) a b c d e = ground arith

-- In a valid parser the call for the kind of the oldest item gives it and leaves the others in their
-- order; the call for the other kind gives nothing and changes nothing.
pub get_next-items : (p : FrameParser) → IsValid p → NextIs p (items p)
get_next-items p v = next_of p _ _ _ refl refl refl v.message_count v.control_count

length-merge :
    (ks : List QueuedFrameKind) (ms : List Message) (cs : List (Opcode × List ℕ))
    → messages_in ks ≡ length ms
    → controls_in ks ≡ length cs
    → length (merge ks ms cs) ≡ length ms + length cs
unfolding merge
length-merge [] [] [] d e = omega arith
length-merge [] (m ∷ ms) cs d e = absurd (omega arith)
length-merge [] [] (c ∷ cs) d e = absurd (omega arith)
length-merge (message ∷ ks) [] cs d e = absurd (omega arith)
length-merge (message ∷ ks) (m ∷ ms) cs d e = omega (arith, length-merge ks ms cs (omega arith) e)
length-merge (control ∷ ks) ms [] d e = absurd (omega arith)
length-merge (control ∷ ks) ms (x ∷ cs) d e = omega (arith, length-merge ks ms cs d (omega arith))

-- No queued message or control frame is out of reach of the calls that follow the wire order.
pub length-items :
    (p : FrameParser) → IsValid p → length (items p) ≡ length p.messages + length p.control_frames
length-items p v = length-merge p.queued _ _ v.message_count v.control_count
