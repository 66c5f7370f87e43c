-- ===== src/Rpc/Frame/Tests.antt =====
-- Frames over a connection that moves one byte at a time.
use gogol.Prelude.{◌≡◌, refl, inl, List, [], ◌∷◌, ◌++◌, arith, true}
use gogol.Text.{Bytes, codes}
use gogol.Rpc.Buffer.{le32, le_value}
use gogol.Rpc.Frame.{frame_write, frame_read, raw_write, raw_read, frame_payload}
use gogol.Rpc.Frame.Delivery.{
  frame, frame_read-refuses, write_frames, read_frames, read_frames-write_frames,
}
use gogol.Rpc.Pipe.{Pipe, pipe, pipe-IsLive, pipe-IsOpen}

abbrev idle : Pipe
idle = record { incoming = []; outgoing = [] }

abbrev holding : Bytes → Pipe
holding s = record { incoming = s; outgoing = [] }

frame_write_test :
    frame_write pipe idle (codes "hi")
    ≡ (true, record { incoming = []; outgoing = 2 ∷ 0 ∷ 0 ∷ 0 ∷ b'h' ∷ b'i' ∷ [] })
unfolding frame_write raw_write le32
frame_write_test = refl

frame_read_test :
    frame_read pipe (holding (2 ∷ 0 ∷ 0 ∷ 0 ∷ b'h' ∷ b'i' ∷ b'x' ∷ []))
    ≡ (codes "hi", holding (codes "x"))
unfolding frame_read frame_payload raw_read le_value
frame_read_test = refl

frame_read-refuses_example :
    let r = frame_read pipe (holding (frame [] ++ codes "x")) in
    (r.0 ≡ []) × (r.1.incoming ≡ codes "x") × (r.1.outgoing ≡ [])
frame_read-refuses_example =
    frame_read-refuses pipe pipe-IsLive (holding (frame [] ++ codes "x")) [] (codes "x") (inl refl)
      (omega arith) refl

abbrev messages : List Bytes
messages = codes "hi" ∷ codes "you" ∷ []

abbrev arrived : Bytes
arrived = 2 ∷ 0 ∷ 0 ∷ 0 ∷ b'h' ∷ b'i' ∷ 3 ∷ 0 ∷ 0 ∷ 0 ∷ b'y' ∷ b'o' ∷ b'u' ∷ []

read_frames-write_frames_example :
    ((read_frames pipe (holding (arrived ++ codes "x")) 2).0 ≡ messages)
    × ((read_frames pipe (holding (arrived ++ codes "x")) 2).1.incoming ≡ codes "x")
unfolding write_frames frame_write raw_write le32
read_frames-write_frames_example =
    read_frames-write_frames pipe pipe-IsOpen pipe-IsLive idle (holding (arrived ++ codes "x"))
      messages arrived (codes "x") (omega arith) refl refl
