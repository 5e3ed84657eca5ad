-- ===== src/Pb/Input/Unknown.antt =====
-- The default case of the decoders of pb/core_lite.go: fields of another version of a message, which
-- are skipped and kept as they are.
use godash.Common.{
  ℕ, ◌/◌, ◌%◌, ◌^◌, ◌≡◌, refl, sym, subst, false, ◌||◌, none, [], ◌∷◌, ◌++◌, leb, ◌==◌, length,
  length-append, append_assoc, append-nil, arith,
}
use godash.Pb.Runtime.{Bytes, decoded, Runtime}
use godash.Pb.Input.{Cases, skip_field, read_field, read_round}
use godash.Pb.Input.Laws.{slice-append}
use godash.Pb.Input.Reads.{Reads, Reads-nil, Reads-append, Reads-round}

module _ {ℓ} {M : Type ℓ} (r : Runtime) (cases : Cases M) where
  -- One field: a legal tag that is none of the message's, and a value that the called module skips.
  pub record UnknownField (b : ℕ) (bs : Bytes) : Type ℓ where
    pub wire : ℕ
    pub value : Bytes
    pub tag_read : (rest : Bytes) → r.decode (b ∷ (bs ++ rest)) ≡ decoded (wire, value ++ rest)
    pub no_end_group : (wire % 8 == 4) ≡ false
    pub legal : (((wire / 8) % 2 ^ 32 == 0) || leb (2 ^ 31) ((wire / 8) % 2 ^ 32)) ≡ false
    pub unread :
        (m : M) (l : ℕ) (rest : Bytes) → cases ((wire / 8) % 2 ^ 32) (wire % 8) m l rest ≡ none
    pub skipped : (rest : Bytes) → r.skip (b ∷ (bs ++ rest)) ≡ decoded (length (b ∷ bs))

  -- One field after the other.
  pub data UnknownFields : Bytes → Type ℓ where
    no_field : UnknownFields []
    field_then :
        (b : ℕ) (bs rest : Bytes)
        → UnknownField b bs
        → UnknownFields rest
        → UnknownFields ((b ∷ bs) ++ rest)

module _ {ℓ} {M : Type ℓ} {r : Runtime} {cases : Cases M} (keep : Bytes → M → M) where
  -- One field is kept.
  UnknownField-Reads :
      (m : M) (b : ℕ) (bs : Bytes)
      → UnknownField r cases b bs
      → Reads r cases keep m (b ∷ bs) (keep (b ∷ bs) m)
  unfolding read_round read_field skip_field
  UnknownField-Reads m b bs u = Reads-round m (keep (b ∷ bs) m) b bs λ l rest fits bound.
      rw
        (
          read_round,
          u.tag_read rest,
          read_field,
          u.no_end_group,
          u.legal,
          u.unread m l (u.value ++ rest),
          skip_field,
          u.skipped rest,
          slice-append l (b ∷ bs) rest (omega (arith, fits, length-append bs rest)) bound,
        )
        refl

  -- All of them are kept, in their order, behind those that are there.
  pub UnknownFields-Reads :
      (m : M)
      → ((a b : Bytes) → keep b (keep a m) ≡ keep (a ++ b) m)
      → (kept us : Bytes) → UnknownFields r cases us
      → Reads r cases keep (keep kept m) us (keep (kept ++ us) m)
  UnknownFields-Reads m append kept us no_field =
      subst (λ x. Reads r cases keep (keep kept m) [] (keep x m)) (sym (append-nil kept))
        (Reads-nil (keep kept m))
  UnknownFields-Reads m append kept us (field_then b bs rest u more) =
      let one : Reads r cases keep (keep kept m) (b ∷ bs) (keep (kept ++ (b ∷ bs)) m) =
        subst (λ x. Reads r cases keep (keep kept m) (b ∷ bs) x) (append kept (b ∷ bs))
          (UnknownField-Reads (keep kept m) b bs u) in
      let others = UnknownFields-Reads m append (kept ++ (b ∷ bs)) rest more in
      subst (λ x. Reads r cases keep (keep kept m) ((b ∷ bs) ++ rest) (keep x m))
        (append_assoc kept (b ∷ bs) rest) (Reads-append one others)
