-- ===== src/IsoTp/Termination/Steps.antt =====
-- mcanbus/src/isotp.rs: what is done with one frame.
use mcanbus.Base.{
  ◌*◌, ◌%◌, ◌^◌, ◌||◌, get_or, bit_and, bit_or, ℕ, ◌+◌, List, [], ◌∷◌, ltb, leb, ◌==◌, ◌!=◌,
  either_branch, length,
}
use mcanbus.Base.Results.{Result}
use mcanbus.Io.{IoError, invalid_data, other, timed_out}
use mcanbus.Channel.Laws.{Ended, ok-Ended, kind-Ended}
use mcanbus.IsoTp.Encode.{
  Options, pci_type_mask, pci_sf, pci_ff, pci_fc, fc_cts, fc_wait, fc_overflow, sf_max_len,
}
use mcanbus.IsoTp.Receive.{
  FcStep, FirstStep, on_sf, on_ff, on_fc, again, done, on_first, whole, segmented, on_cf,
}

-- What is done with one frame gives no such result either.
pub data FcEnds : FcStep → Type 0 where
  again_ends : {waits : ℕ} → FcEnds (again waits)
  done_ends : {r : Result (ℕ × ℕ) IoError} → Ended r → FcEnds (done r)

pub data FirstEnds : FirstStep → Type 0 where
  whole_ends : {r : Result (List ℕ) IoError} → Ended r → FirstEnds (whole r)
  segmented_ends : {total : ℕ} {chunk : List ℕ} → FirstEnds (segmented total chunk)

pub on_fc-FcEnds : (opts : Options) (waits : ℕ) (bytes : List ℕ) → FcEnds (on_fc opts waits bytes)
unfolding on_fc
on_fc-FcEnds opts waits [] = again_ends
on_fc-FcEnds opts waits (pci ∷ more) =
    let flag = bit_and pci 0x0f in
    let bad = done_ends (kind-Ended {A = ℕ × ℕ} invalid_data) in
    either_branch FcEnds (bit_and pci pci_type_mask != pci_fc) bad (
      either_branch FcEnds (flag == fc_cts) (done_ends (ok-Ended _)) (
        either_branch FcEnds (flag == fc_wait)
          (either_branch FcEnds (ltb opts.max_waits ((waits + 1) % 2 ^ 8))
            (done_ends (kind-Ended timed_out)) again_ends)
          (either_branch FcEnds (flag == fc_overflow) (done_ends (kind-Ended other)) bad)))

pub on_first-FirstEnds : (bytes : List ℕ) → FirstEnds (on_first bytes)
unfolding on_first on_sf on_ff
on_first-FirstEnds [] = whole_ends (kind-Ended invalid_data)
on_first-FirstEnds (pci ∷ more) =
    let bytes = pci ∷ more in
    let type = bit_and pci pci_type_mask in
    let len = bit_and pci 0x0f in
    let bad = whole_ends (kind-Ended {A = List ℕ} invalid_data) in
    either_branch FirstEnds (type == pci_sf)
      (either_branch FirstEnds (len == 0 || ltb sf_max_len len || ltb (length bytes) (1 + len)) bad
        (whole_ends (ok-Ended _)))
      (either_branch FirstEnds (type == pci_ff)
        (either_branch FirstEnds (ltb (length bytes) 2) bad (
          either_branch FirstEnds (leb (bit_or (len * 2 ^ 8) (get_or bytes 1 0)) sf_max_len) bad
            segmented_ends))
        bad)

pub on_cf-Ended :
    (total : ℕ) (out : List ℕ) (seq : ℕ) (bytes : List ℕ) → Ended (on_cf total out seq bytes)
unfolding on_cf
on_cf-Ended total out seq [] = kind-Ended invalid_data
on_cf-Ended total out seq (pci ∷ more) =
    either_branch Ended _ (kind-Ended invalid_data)
      (either_branch Ended _ (kind-Ended invalid_data) (ok-Ended _))
