-- ===== src/FileTransfer/Messages.antt =====
-- The messages that a file travels in.
use they_chat.Base.{
  ℕ, suc, ◌+◌, ◌^◌, ◌≤◌, ◌<◌, ◌≡◌, refl, ap, ◌++◌, true, Option, none, some, List, [], ◌∷◌, le→ltb,
  length, arith,
}
use they_chat.CString.{c_string, terminated}
use they_chat.CString.Laws.{IsString, strcpy_fits, strcpy-terminated}
use they_chat.Message.{
  Message, Payload, MessageType, payload_type, message_code, file_content_size, header_name_bytes,
}
use they_chat.Message.IsMessage.{IsMessage, payload_length}
use they_chat.Message.Create.{
  create_file_header_message, create_file_content_message, create_file_end_message,
}
use they_chat.Message.Create.Valid.{create_file_content_message_lem}
use they_chat.MessageSerializer.Wire.{wire}
use they_chat.MessageSerializer.Size.{FitsBuffer}
use they_chat.NetStream.Laws.{FitsStream}
use they_chat.NetCommunication.{same_type}
use they_chat.FileTransfer.{chunk_of}

-- What a message needs to get to the other side, where `code` expects it.
pub record Travels (created : Option Message) (type : MessageType) : Type 0 where
  pub message : Message
  pub is_created : created ≡ some message
  pub valid : IsMessage message
  pub fits_buffer : FitsBuffer message.payload
  pub fits_stream : FitsStream message
  pub has_type : same_type (payload_type message.payload) type ≡ true

-- What one call of fread() gives, while there is something to read.
abbrev pub IsRead : List ℕ → Type 0
IsRead buffer = (0 < length buffer) × (length buffer ≤ file_content_size)

pub content-Travels :
    (old buffer : List ℕ)
    → length old ≡ file_content_size
    → IsRead buffer
    → (t : Travels
        (create_file_content_message old buffer (length buffer))
        MessageType.file_content)
      × (chunk_of t.message.payload ≡ some buffer)
unfolding payload_length payload_type message_code
content-Travels old buffer o r =
    let (bs, p, l, t) = create_file_content_message_lem old buffer (length buffer) o refl r.1 in
    (
      record {
        message = _;
        is_created = p;
        valid = record { payload_valid = (omega (arith, r.1), l); length_valid = refl };
        fits_buffer = tt;
        fits_stream = omega arith;
        has_type = refl;
      },
      rw (le→ltb (length bs) (length buffer) (omega (arith, l, r.1))) (ap some t),
    )

-- The payload is a header with this name and size.
abbrev pub Heads : List ℕ → ℕ → Payload → Type 0
Heads name size (Payload.file_header p) =
    (c_string p.name ≡ name) × (terminated p.name ≡ true) × (p.size ≡ size)
Heads name size _ = ⊥

pub header-Travels :
    (old name : List ℕ) (size : ℕ)
    → length old ≡ header_name_bytes
    → IsString name
    → length name < header_name_bytes
    → size < 2 ^ 32
    → (t : Travels (create_file_header_message old name size) MessageType.file_header) × Heads name
        size t.message.payload
unfolding create_file_header_message payload_length payload_type message_code
header-Travels old name size o s l z =
    let (out, p, n, c) = strcpy_fits old name header_name_bytes o l s in
    (
      record {
        message = record {
          net_payload_length = header_name_bytes + 4;
          payload = Payload.file_header (record { name = out; size = size });
        };
        is_created = rw p;
        valid = record { payload_valid = (n, z); length_valid = refl };
        fits_buffer = tt;
        fits_stream = omega arith;
        has_type = refl;
      },
      (c, strcpy-terminated old name out p, refl),
    )

pub end-Travels : Travels (some create_file_end_message) MessageType.file_end
unfolding create_file_end_message payload_length payload_type message_code
end-Travels = record {
  message = create_file_end_message;
  is_created = refl;
  valid = record { payload_valid = tt; length_valid = refl };
  fits_buffer = tt;
  fits_stream = omega arith;
  has_type = refl;
}

abbrev pub created_wire : Option Message → List ℕ
created_wire none = []
created_wire (some m) = wire m

pub Travels-wire :
    {created : Option Message} {type : MessageType} (t : Travels created type)
    → created_wire created ≡ wire t.message
Travels-wire t = ap created_wire t.is_created

-- The bytes of a whole file: its header, its parts and the end.
unfoldable pub contents_wire : (ℕ → List ℕ) → List (List ℕ) → ℕ → List ℕ
contents_wire stack [] k = []
contents_wire stack (buffer ∷ reads) k =
    created_wire (create_file_content_message (stack k) buffer (length buffer))
    ++ contents_wire stack reads (suc k)

unfoldable pub file_wire :
    (old : List ℕ) (stack : ℕ → List ℕ) (name : List ℕ) (size : ℕ) (reads : List (List ℕ)) → List ℕ
file_wire old stack name size reads =
    created_wire (create_file_header_message old name size)
    ++ (contents_wire stack reads 0 ++ wire create_file_end_message)
