-- ===== src/Frame.antt =====
-- IFrameIO.cpp and protocom/IFrameIO.h: the frame, a header byte, a 16-bit length and a message.
-- `msg` is the content of the buffer behind the pointer, and [] where the pointer is null. A frame
-- is a value here: that a moved-from frame still holds the pointer is seen in its `msg` only.
use protocom.Prelude.{
  ℕ, ◌/◌, ◌%◌, ◌<◌, ◌≡◌, Bool, true, false, List, [], ◌∷◌, ◌++◌, bit_and, ◌==◌, length, take,
  replicate, if◌then◌else◌,
}

pub record Frame : Type 0 where
  pub header : ℕ
  pub len : ℕ
  pub msg : List ℕ
  pub has_dynamic_data : Bool

-- The default constructor.
abbrev pub new : Frame
new = record { header = 0; len = 0; msg = []; has_dynamic_data = false }

-- The copy constructor and the copy assignment: a buffer of its own, filled from the other's.
abbrev pub copy : Frame → Frame
copy f = record { header = f.header; len = f.len; msg = take f.len f.msg; has_dynamic_data = true }

-- The move constructor: the new frame, and what is left in the old one.
abbrev pub move : Frame → Frame × Frame
move f = (f, record f { has_dynamic_data = false })

-- A new buffer of `len` bytes. Its bytes are indeterminate until they are written, and stand as 0.
abbrev pub alloc_msg : Frame → Frame
alloc_msg f =
    if f.has_dynamic_data then f else record f { msg = replicate f.len 0; has_dynamic_data = true }

abbrev pub erase : Frame → Frame
erase f = record { header = 0; len = 0; msg = []; has_dynamic_data = false }

-- The test `(header & 0xF0) == 0xF0` of the receivers.
unfoldable pub valid_header : ℕ → Bool
valid_header h = bit_and h 0xF0 == 0xF0

-- What a frame carries, without its storage.
pub record Packet : Type 0 where
  pub header : ℕ
  pub payload : List ℕ

abbrev pub packet : Frame → Packet
packet f = record { header = f.header; payload = f.msg }

-- The frame on the wire: header, length in network order, message.
unfoldable pub wire : Packet → List ℕ
wire p = p.header ∷ length p.payload / 256 % 256 ∷ length p.payload % 256 ∷ p.payload

unfoldable pub wire_all : List Packet → List ℕ
unfolding wire
wire_all [] = []
wire_all (p ∷ ps) = wire p ++ wire_all ps

-- A packet that a receiver accepts and whose length fits its field.
pub record IsSendable (p : Packet) : Type 0 where
  pub valid : valid_header p.header ≡ true
  pub fits : length p.payload < 65536
