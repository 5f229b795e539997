-- ===== src/Sensors/OpenCr/Chunks.antt =====
-- `SerialOpenCRSource.samples` of link/robocam_client.py: how the bytes are cut into reads of the
-- port, and the bound on the buffer.
use robo_cam_stream_processi.Sensors.Framing.{Reading}
use robo_cam_stream_processi.Sensors.Framing.Fuel.{read_ends}
use robo_cam_stream_processi.Sensors.Framing.Append.{then, read-append, read_again}
use robo_cam_stream_processi.Sensors.Lidar.Chunks.{joined}
use robo_cam_stream_processi.Sensors.OpenCr.{
  Counters, Source, packet_bytes, frames, on_packet, trim, on_chunk, on_chunks,
}
use robo_cam_stream_processi.Prelude.{
  List, ℕ, ◌∷◌, Bool, length, ◌++◌, ◌≡◌, arith, ◌≤◌, [], ◌+◌, ◌<◌, sym, ap₂, ap, append-nil, ◌∙◌,
  length-append, append_assoc,
}

-- `read(512)` gives 512 bytes at most.
abbrev pub AllReads : List (List ℕ) → Type 0
AllReads [] = Unit
AllReads (chunk ∷ rest) = (length chunk ≤ 512) × AllReads rest

module _ {F : Type 0} (unpack : List ℕ → F) (is_finite : F → Bool) (exceeds : ℕ → F → Bool) where
  frames-append :
      (buf more : List ℕ) (s : Counters)
      → frames unpack is_finite exceeds (buf ++ more) s
        ≡ then
            (frames unpack is_finite exceeds buf s)
            (λ left s'. frames unpack is_finite exceeds (left ++ more) s')
  unfolding frames
  frames-append buf more s =
      read-append 0x55 0xAA packet_bytes (on_packet unpack is_finite exceeds) (omega arith) buf more
        s

  -- Between two reads of the port: the buffer holds no whole frame.
  abbrev pub IsDrained : Source → Type 0
  IsDrained s =
      (frames unpack is_finite exceeds s.buf s.counters
        ≡ record { found = []; left = s.buf; state = s.counters })
      × (length s.buf < packet_bytes)

  drained :
      (buf : List ℕ) (bytes : ℕ) (s : Counters)
      → IsDrained (record {
        buf = (frames unpack is_finite exceeds buf s).left;
        bytes = bytes;
        counters = (frames unpack is_finite exceeds buf s).state;
      })
  unfolding frames
  drained buf bytes s = (
    read_again 0x55 0xAA packet_bytes (on_packet unpack is_finite exceeds) (omega arith) buf s,
    (read_ends 0x55 0xAA packet_bytes (on_packet unpack is_finite exceeds) (omega arith) 0 buf s).1,
  )

  trim_idle : (buf : List ℕ) → length buf ≤ 8192 → trim buf ≡ buf
  unfolding trim
  trim_idle buf h = ground (arith, h)

  abbrev digest : ℕ → Reading Counters (List F) → List (List F) × Source
  digest bytes r = (r.found, record { buf = r.left; bytes = bytes; counters = r.state })

  abbrev first : Source → List ℕ → Reading Counters (List F)
  first s chunk = frames unpack is_finite exceeds (s.buf ++ chunk) s.counters

  -- The rest of the reads, after one in which `r` was found.
  abbrev resumed : ℕ → List ℕ → List (List ℕ) → Reading Counters (List F) → List (List F) × Source
  resumed bytes chunk rest r =
      let p = on_chunks unpack is_finite exceeds rest (digest (bytes + length chunk) r).1 in
      (r.found ++ p.0, p.1)

  -- What a source has given, and become, once it has read some bytes in one piece.
  abbrev pub in_one_piece : List ℕ → Source → List (List F) × Source
  in_one_piece bytes s = digest (s.bytes + length bytes) (first s bytes)

  -- From a source whose buffer holds no whole frame, however the board's bytes are cut into reads of
  -- at most 512: the samples that come out and the state that is left are those of the framing loop
  -- on all the bytes in one piece, so no byte is lost to the bound on the buffer.
  pub on_chunks-frames :
      (chunks : List (List ℕ)) (s : Source)
      → AllReads chunks
      → IsDrained s
      → on_chunks unpack is_finite exceeds chunks s ≡ in_one_piece (joined chunks) s
  unfolding on_chunks on_chunk
  on_chunks-frames [] s _ (settled, _) = sym (
      ap₂ digest (omega arith)
        (ap (λ buf. frames unpack is_finite exceeds buf s.counters) (append-nil s.buf) ∙ settled))
  on_chunks-frames ([] ∷ rest) s (_, short) h = on_chunks-frames rest s short h
  on_chunks-frames ((b ∷ bs) ∷ rest) s (fits, short) (settled, less) =
      ap (λ bytes. resumed s.bytes (b ∷ bs) rest (frames unpack is_finite exceeds bytes s.counters))
        (trim_idle (s.buf ++ b ∷ bs) (omega (arith, length-append s.buf (b ∷ bs))))
      ∙ ap (λ p. ((first s (b ∷ bs)).found ++ p.0, p.1))
          (on_chunks-frames rest _ short
            (drained (s.buf ++ b ∷ bs) (s.bytes + length (b ∷ bs)) s.counters))
      ∙ ap₂ digest (omega (arith, length-append (b ∷ bs) (joined rest))) (
          sym (
            ap (λ bytes. frames unpack is_finite exceeds bytes s.counters)
              (sym (append_assoc s.buf (b ∷ bs) (joined rest)))
            ∙ frames-append (s.buf ++ b ∷ bs) (joined rest) s.counters))
