-- ===== src/Conduit/Stream.antt =====
-- A conduit as a stream of messages: what its ring holds is the frames of the messages not yet
-- received, each a header and its bytes, the oldest first.
use limitless_os.Prelude.{
  ℕ, ◌+◌, ◌≤◌, ◌≡◌, refl, sym, ap, ap₂, subst, ◌∙◌, List, [], ◌∷◌, ◌++◌, length, take, length-take,
  append_assoc, append-nil, arith, take_all,
}
use limitless_os.Conduit.Ring.{Ring, ringbuf_write, ringbuf_read, ringbuf_peek}
use limitless_os.Conduit.Ring.Contents.{IsValid, contents}
use limitless_os.Conduit.Ring.Transfer.{
  length-contents, ringbuf_peek_lem, ringbuf_write_all, ringbuf_read_front,
}
use limitless_os.Conduit.Message.{
  Message, header_size, header_bytes, read_header, Fits, length-header_bytes,
  read_header-header_bytes,
}

abbrev pub Frame : Type 0
Frame = Message × List ℕ

abbrev pub frame_bytes : Frame → List ℕ
frame_bytes (header, bytes) = header_bytes header ++ bytes

abbrev pub frames : List Frame → List ℕ
frames [] = []
frames (f ∷ fs) = frame_bytes f ++ frames fs

-- The header tells the number of the bytes that follow it.
abbrev pub WellFormed : List Frame → Type 0
WellFormed [] = Unit {0}
WellFormed (f ∷ fs) = Fits f.0 × (length f.1 ≡ f.0.size) × WellFormed fs

pub frames-append : (fs gs : List Frame) → frames (fs ++ gs) ≡ frames fs ++ frames gs
frames-append [] gs = refl
frames-append (f ∷ fs) gs =
    ap (◌++◌ (frame_bytes f)) (frames-append fs gs)
    ∙ sym (append_assoc (frame_bytes f) (frames fs) (frames gs))

pub WellFormed-append : (fs gs : List Frame) → WellFormed fs → WellFormed gs → WellFormed (fs ++ gs)
WellFormed-append [] gs a b = b
WellFormed-append (f ∷ fs) gs a b = (a.0, a.1, WellFormed-append fs gs a.2 b)

-- The ring holds the frames of `fs`.
pub record Carries (rb : Ring) (fs : List Frame) : Type 0 where
  pub valid : IsValid rb
  pub stream : contents rb ≡ frames fs
  pub formed : WellFormed fs

-- The two writes of `conduit_send` append a frame where there is room for it.
pub write_frame :
    (rb : Ring) (fs : List Frame) (header : Message) (bytes : List ℕ)
    → Carries rb fs
    → Fits header
    → header.size ≤ length bytes
    → rb.used + (header_size + header.size) ≤ rb.size
    → let (n, rb') = ringbuf_write rb (header_bytes header) header_size in
      let (m, rb'') = ringbuf_write rb' bytes header.size in
      (n ≡ header_size)
      × (m ≡ header.size)
      × Carries rb'' (fs ++ (header, take header.size bytes) ∷ [])
      × (rb''.used ≡ rb.used + (header_size + header.size))
unfolding header_bytes
write_frame rb fs header bytes c fits given room =
    let a =
      ringbuf_write_all rb (header_bytes header) header_size c.valid (omega arith) (omega arith) in
    let rb' = (ringbuf_write rb (header_bytes header) header_size).1 in
    let b =
      ringbuf_write_all rb' bytes header.size a.valid given
        (omega (arith, a.used_now, a.same_size)) in
    let hb = header_bytes header in
    let body = take header.size bytes in
    (
      a.count,
      b.count,
      record {
        valid = b.valid;
        stream =
            b.appended
            ∙ ap (λ l. l ++ body)
                (a.appended
                  ∙ ap₂ ◌++◌ c.stream
                      (take_all header_size hb (omega (arith, length-header_bytes header))))
            ∙ append_assoc (frames fs) hb body
            ∙ ap (◌++◌ (frames fs)) (sym (append-nil (hb ++ body)))
            ∙ sym (frames-append fs ((header, body) ∷ []));
        formed =
            WellFormed-append fs ((header, body) ∷ []) c.formed
              (fits, omega (arith, length-take header.size bytes), tt);
      },
      omega (arith, b.used_now, a.used_now),
    )

read_header_alone : (m : Message) → Fits m → read_header (header_bytes m) ≡ m
read_header_alone m f =
    ap read_header (sym (append-nil (header_bytes m))) ∙ read_header-header_bytes m [] f

abbrev Reads : Ring → List ℕ → List ℕ → ℕ → Type 0
Reads rb front rest len =
    let (bytes, rb') = ringbuf_read rb len in (bytes ≡ front) × (contents rb' ≡ rest) × IsValid rb'

-- The two reads of `conduit_receive` take the oldest frame.
pub read_frame :
    (rb : Ring) (header : Message) (bytes : List ℕ) (fs : List Frame)
    → Carries rb ((header, bytes) ∷ fs)
    → let (front, rb') = ringbuf_read rb header_size in
      let (got, rb'') = ringbuf_read rb' (read_header front).size in
      (read_header front ≡ header) × (got ≡ bytes) × Carries rb'' fs
unfolding header_bytes
read_frame rb header bytes fs c =
    let rest = bytes ++ frames fs in
    let (got, left, valid) =
      ringbuf_read_front rb (header_bytes header) rest c.valid
        (c.stream ∙ append_assoc (header_bytes header) bytes (frames fs)) in
    let front : List ℕ = (ringbuf_read rb header_size).0 in
    let rb' : Ring = (ringbuf_read rb header_size).1 in
    let read : read_header front ≡ header =
      ap read_header got ∙ read_header_alone header c.formed.0 in
    let size : length bytes ≡ (read_header front).size =
      c.formed.1 ∙ sym (ap (λ (m : Message). m.size) read) in
    let (got', left', valid') =
      subst (Reads rb' bytes (frames fs)) size
        (ringbuf_read_front rb' bytes (frames fs) valid left) in
    (read, got', record { valid = valid'; stream = left'; formed = c.formed.2 })

pub peek_front :
    (rb : Ring) (header : Message) (bytes : List ℕ) (fs : List Frame)
    → Carries rb ((header, bytes) ∷ fs)
    → read_header (ringbuf_peek rb header_size) ≡ header
unfolding header_bytes ringbuf_read
peek_front rb header bytes fs c =
    ap read_header (
      ringbuf_peek_lem rb header_size
      ∙ (ringbuf_read_front rb (header_bytes header) (bytes ++ frames fs) c.valid
          (c.stream ∙ append_assoc (header_bytes header) bytes (frames fs))).0)
    ∙ read_header_alone header c.formed.0

-- A ring with no frame is empty, and any other holds at least a header.
pub Carries-used : (rb : Ring) (fs : List Frame) → Carries rb fs → rb.used ≡ length (frames fs)
Carries-used rb fs c = sym (length-contents rb) ∙ ap length c.stream
