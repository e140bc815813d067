-- ===== src/Transport/WsFrame/Stream.antt =====
-- `Read` turns the frames of the other side back into one stream of bytes.
use rathole_pro.Prelude.{
  ℕ, zero, suc, ◌+◌, ◌≤◌, ◌<◌, ◌≡◌, ◌≢◌, refl, ap, Bool, false, List, [], ◌∷◌, ◌++◌, length,
  length-append, append_assoc, arith, take, drop, take-append-drop, drop-drop, drop-length-take,
  length-take, length-drop, drop_all, inl, inr, List-cases, All,
}
use rathole_pro.Prelude.Exec.{Err, eof, wrapf, out_of_fuel, ok, err}
use rathole_pro.Net.Laws.{read_full_end}
use rathole_pro.Transport.WsFrame.{WsConn, max_payload, frame, read, next_frame, read_frame}
use rathole_pro.Transport.WsFrame.Header.{resume}
use rathole_pro.Transport.WsFrame.RoundTrip.{read_frame-frame}

-- A data frame by its mask key and payload.
pub record Frame : Type 0 where
  pub key : List ℕ
  pub payload : List ℕ

abbrev pub IsFrame : Frame → Type 0
IsFrame f = (length f.key ≡ 4) × (length f.payload ≤ max_payload)

-- What `Write` calls put on the wire, and the bytes that they were given.
abbrev pub wire : Bool → List Frame → List ℕ
wire side [] = []
wire side (f ∷ fs) = frame side 0x02 f.key f.payload ++ wire side fs

abbrev pub payloads : List Frame → List ℕ
payloads [] = []
payloads (f ∷ fs) = f.payload ++ payloads fs

-- The bytes of the last frame that no `Read` has returned yet.
abbrev pub pending : WsConn → List ℕ
pending ws = drop ws.read_pos ws.read_buf

-- An open connection on which exactly these frames are still to come.
pub record Carries (side : Bool) (ws : WsConn) (fs : List Frame) : Type 0 where
  pub is_open : ws.raw.closed ≡ false
  pub arrives : ws.raw.incoming ≡ wire side fs
  pub sound : All IsFrame fs

-- `Read` with bytes pending returns the first of them and touches nothing else.
pub read-pending :
    (size : ℕ) (ws : WsConn)
    → pending ws ≢ []
    → ((read size ws).0 ≡ ok (take size (pending ws)))
      × (pending (read size ws).1 ≡ drop size (pending ws))
      × ((read size ws).1.raw ≡ ws.raw)
unfolding read
read-pending size ws h =
    let rest = pending ws in
    ground (
      arith,
      drop-drop ws.read_pos (length (take size rest)) ws.read_buf,
      drop-length-take size rest,
      drop_all ws.read_pos ws.read_buf,
      drop_all (ws.read_pos + length (take size rest)) ws.read_buf,
    )

next_frame-wire :
    (side : Bool) (f : Frame) (fs : List Frame) (ws : WsConn)
    → Carries side ws (f ∷ fs)
    → next_frame ws ≡ (ok f.payload, resume ws (wire side fs))
unfolding next_frame
next_frame-wire side f fs ws h =
    read_frame-frame (length ws.raw.incoming) side 2 f.key f.payload (wire side fs) ws (omega arith)
      (omega arith) (omega arith) h.sound.0.0 h.sound.0.1 h.is_open h.arrives

-- `Read` with nothing pending takes the next frame.
pub read_next :
    (side : Bool) (size : ℕ) (f : Frame) (fs : List Frame) (ws : WsConn)
    → pending ws ≡ []
    → Carries side ws (f ∷ fs)
    → ((read size ws).0 ≡ ok (take size f.payload))
      × (pending (read size ws).1 ≡ drop size f.payload)
      × Carries side (read size ws).1 fs
unfolding read
read_next side size f fs ws none_left h = ground (
  arith,
  next_frame-wire side f fs ws h,
  ap length none_left,
  length-drop ws.read_pos ws.read_buf,
  drop-length-take size f.payload,
  length-take size f.payload,
  drop_all size f.payload,
)

-- What the application has not read yet.
abbrev pub unread : WsConn → List Frame → List ℕ
unread ws fs = pending ws ++ payloads fs

-- A caller that reads into a buffer of `size` bytes until an error, as `io.Copy` does.
pub read_to_end : ℕ → ℕ → WsConn → List ℕ × Err
read_to_end zero size ws = ([], out_of_fuel)
read_to_end (suc fuel) size ws =
    let r = read size ws in
    let more = read_to_end fuel size r.1 in
    elim r.0 [ ok xs ↦ (xs ++ more.0, more.1) | err e ↦ ([], e) ]

read_to_end_ok :
    (fuel size : ℕ) (ws : WsConn) {xs : List ℕ}
    → (read size ws).0 ≡ ok xs
    → read_to_end (suc fuel) size ws ≡ (
      xs ++ (read_to_end fuel size (read size ws).1).0,
      (read_to_end fuel size (read size ws).1).1,
    )
unfolding read_to_end
read_to_end_ok fuel size ws e = ground arith

-- At the end of the stream.
read_at_end :
    (side : Bool) (size : ℕ) (ws : WsConn)
    → pending ws ≡ []
    → Carries side ws []
    → (read size ws).0 ≡ err (wrapf "ws read header" eof)
unfolding read next_frame read_frame
read_at_end side size ws none_left h =
    ground (arith, read_full_end 2 ws.raw, ap length none_left, length-drop ws.read_pos ws.read_buf)

abbrev ReadsAll : ℕ → ℕ → WsConn → List Frame → Type 0
ReadsAll fuel size ws fs = read_to_end fuel size ws ≡ (unread ws fs, wrapf "ws read header" eof)

-- One round of the loop, from what `Read` returned and what the rest of the loop returns.
ReadsAll-step :
    (fuel size : ℕ) (front back : List ℕ) (fs gs : List Frame) (ws : WsConn)
    → (read size ws).0 ≡ ok (take size front)
    → unread ws fs ≡ front ++ back
    → unread (read size ws).1 gs ≡ drop size front ++ back
    → ReadsAll fuel size (read size ws).1 gs
    → ReadsAll (suc fuel) size ws fs
unfolding read_to_end
ReadsAll-step fuel size front back fs gs ws r e e' ih =
    ground
      (arith, append_assoc (take size front) (drop size front) back, take-append-drop size front)

-- The round where bytes are pending.
ReadsAll-pending :
    (fuel : ℕ) (side : Bool) (size : ℕ) (fs : List Frame) (ws : WsConn) {x : ℕ} {xs : List ℕ}
    → 0 < size
    → Carries side ws fs
    → length (unread ws fs) + length fs < suc fuel
    → pending ws ≡ x ∷ xs
    → ((v : WsConn)
        → Carries side v fs
        → length (unread v fs) + length fs < fuel
        → ReadsAll fuel size v fs)
    → ReadsAll (suc fuel) size ws fs
ReadsAll-pending fuel side size fs ws pos h enough some_left ih =
    let (r, p, raw) = read-pending size ws (ground arith) in
    ReadsAll-step fuel size (pending ws) (payloads fs) fs fs ws r refl (rw p) (
      ih (read size ws).1
        (record { is_open = rw raw h.is_open; arrives = rw raw h.arrives; sound = h.sound })
        (ground (
          arith,
          length-drop size (pending ws),
          length-append (pending ws) (payloads fs),
          length-append (drop size (pending ws)) (payloads fs),
          p,
          some_left,
        )))

-- On an open connection on which only data frames are to come, with keys of 4 bytes and payloads
-- of at most 16 MB, a caller that reads into a buffer of a size above 0 gets the pending bytes and
-- then the payloads of all frames, in order, and then, where the connection ends behind them, the
-- error `ws read header`, which wraps EOF and is not the `io.EOF` that ends an `io.Reader`; more
-- rounds than bytes and frames together are enough.
pub read_to_end_lem :
    (fuel : ℕ) (side : Bool) (size : ℕ) (fs : List Frame) (ws : WsConn)
    → 0 < size
    → Carries side ws fs
    → length (unread ws fs) + length fs < fuel
    → read_to_end fuel size ws ≡ (unread ws fs, wrapf "ws read header" eof)
read_to_end_lem zero side size fs ws pos h enough = absurd (omega arith)
read_to_end_lem (suc fuel) side size [] ws pos h enough = elim (List-cases (pending ws)) [
  | inl none_left ↦ unfold read_to_end in ground (arith, read_at_end side size ws none_left h)
  | inr (x, xs, some_left) ↦
      ReadsAll-pending fuel side size [] ws pos h enough some_left
        (λ v c m. read_to_end_lem fuel side size [] v pos c m)
]
read_to_end_lem (suc fuel) side size (f ∷ fs) ws pos h enough = elim (List-cases (pending ws)) [
  | inl none_left ↦
      let (r, p, c) = read_next side size f fs ws none_left h in
      ReadsAll-step fuel size f.payload (payloads fs) (f ∷ fs) fs ws r (rw none_left) (rw p) (
        read_to_end_lem fuel side size fs (read size ws).1 pos c (
          ground (
            arith,
            length-drop size f.payload,
            length-append f.payload (payloads fs),
            length-append (drop size f.payload) (payloads fs),
            length-append (pending ws) (f.payload ++ payloads fs),
            p,
            none_left,
          )))
  | inr (x, xs, some_left) ↦
      ReadsAll-pending fuel side size (f ∷ fs) ws pos h enough some_left
        (λ v c m. read_to_end_lem fuel side size (f ∷ fs) v pos c m)
]
