-- ===== src/FileTransfer/Receive.antt =====
-- Statements on the loop of receive_file of common/net/file_transfer.c.
use they_chat.Base.{
  ℕ, zero, suc, ◌+◌, ◌≤◌, ◌<◌, ◌≡◌, sym, ap, subst, ◌∙◌, ◌++◌, append-nil, append_assoc, Option,
  some, List, [], ◌∷◌, All, length, length-append, lt→ltb, le→ltb, arith,
}
use they_chat.Bytes.{Endianness}
use they_chat.Message.{Message, MessageType, file_content_size}
use they_chat.NetStream.{NetworkStream}
use they_chat.NetStream.Laws.{IsStream, content}
use they_chat.NetPrimitives.{NetEvent}
use they_chat.NetPrimitives.Laws.{Flows, bytes}
use they_chat.NetCommunication.{received, wait_for_message_type}
use they_chat.NetCommunication.Wait.{wait_for_message_type-Delivers}
use they_chat.FileTransfer.{chunk_of, Contents, written, receive_contents}
use they_chat.FileTransfer.Messages.{
  Travels, Travels-wire, IsRead, content-Travels, created_wire, contents_wire,
}

-- The bytes of all reads together.
unfoldable pub joined : List (List ℕ) → List ℕ
joined [] = []
joined (buffer ∷ reads) = buffer ++ joined reads

-- The stream and the events from which `rest` is still to be read.
abbrev pub Leaves : NetworkStream → List NetEvent → List ℕ → Type 0
Leaves ns es rest = IsStream ns × Flows es × (content ns ++ bytes es ≡ rest)

-- A message that travels is what a wait for its type returns.
pub next_message :
    (e : Endianness) {created : Option Message} {type : MessageType} (t : Travels created type)
    (rest tail : List ℕ) (ns : NetworkStream) (es : List NetEvent)
    → Leaves ns es ((created_wire created ++ rest) ++ tail)
    → (ns' : NetworkStream) × (es' : List NetEvent) × (wait_for_message_type e ns type es
        ≡ received t.message ns' es')
      × Leaves ns' es' (rest ++ tail)
next_message e {type = type} t rest tail ns es l =
    let (ns', es', w, h, f, c) =
      wait_for_message_type-Delivers e t.message (rest ++ tail) t.valid t.fits_stream type ns es
        t.has_type l.0 l.1
        (l.2
          ∙ append_assoc (created_wire _) rest tail
          ∙ ap (λ b. b ++ (rest ++ tail)) (Travels-wire t)) in
    (ns', es', w, (h, f, c))

module _ (fuel : ℕ) (e : Endianness) (size : ℕ) (got : List ℕ) (ns : NetworkStream)
    (es : List NetEvent) where
  receive_contents-next :
      {m : Message} {ns' : NetworkStream} {es' : List NetEvent} {bs : List ℕ}
      → length got < size
      → wait_for_message_type e ns MessageType.file_content es ≡ received m ns' es'
      → chunk_of m.payload ≡ some bs
      → receive_contents (suc fuel) e size got ns es
        ≡ receive_contents fuel e size (got ++ bs) ns' es'
  unfolding receive_contents
  receive_contents-next lt w k =
      rw (lt→ltb (length got) size lt, w, receive_contents, k, receive_contents)

  receive_contents-stop :
      size ≤ length got → receive_contents (suc fuel) e size got ns es ≡ written got ns es
  unfolding receive_contents
  receive_contents-stop le = rw (le→ltb (length got) size le)

-- The loop writes all that is left of the file.
abbrev pub Writes : Contents → List ℕ → List ℕ → Type 0
Writes c file rest =
    (ns : NetworkStream) × (es : List NetEvent) × (c ≡ written file ns es) × Leaves ns es rest

module _ (e : Endianness) (stack : ℕ → List ℕ) (size : ℕ) (tail : List ℕ)
    (arrays : (k : ℕ) → length (stack k) ≡ file_content_size) where
  pub receive_contents-Writes :
      (reads : List (List ℕ)) (k fuel : ℕ) (got : List ℕ) (ns : NetworkStream) (es : List NetEvent)
      → All IsRead reads
      → length got + length (joined reads) ≡ size
      → length reads < fuel
      → Leaves ns es (contents_wire stack reads k ++ tail)
      → Writes (receive_contents fuel e size got ns es) (got ++ joined reads) tail
  unfolding contents_wire joined
  receive_contents-Writes reads k zero got ns es r s lt l = absurd (omega arith)
  receive_contents-Writes [] k (suc fuel) got ns es r s lt l = (
    ns,
    es,
    receive_contents-stop fuel e size got ns es (omega (arith, s))
        ∙ ap (λ b. written b ns es) (sym (append-nil got)),
    l,
  )
  receive_contents-Writes (buffer ∷ reads) k (suc fuel) got ns es r s lt l =
      let total = length-append buffer (joined reads) in
      let (t, chunk) = content-Travels (stack k) buffer (arrays k) r.0 in
      let (ns', es', w, l') = next_message e t (contents_wire stack reads (suc k)) tail ns es l in
      let rec =
        receive_contents-Writes reads (suc k) fuel (got ++ buffer) ns' es' r.1
          (omega (arith, s, total, length-append got buffer)) (omega (arith, lt)) l' in
      let step =
        receive_contents-next fuel e size got ns es (omega (arith, s, total, r.0)) w chunk in
      subst (λ c. Writes c (got ++ (buffer ++ joined reads)) tail) (sym step)
        (subst (λ b. Writes (receive_contents fuel e size (got ++ buffer) ns' es') b tail)
          (append_assoc got buffer (joined reads)) rec)
