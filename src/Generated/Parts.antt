-- ===== src/Generated/Parts.antt =====
-- The parts of a generated message, its fields and its oneofs, as the message's code sees them.
use micropb.Prelude.{ℕ, Bool, List, Option, some, if◌then◌else◌}
use micropb.Monad.{ok, err, M, ◌>>=◌, ◌>>◌, go_on}
use micropb.Wire.{Tag, from_parts, varint}
use micropb.Writer.{PbWrite}
use micropb.Encode.{PbEncoder, encode_varint32}
use micropb.Size.{sizeof_tag}
use micropb.Reader.{PbRead}
use micropb.Decode.{custom_field, lift}
use micropb.Decode.Into.{Into, get_or}

-- The bytes of the message's `_has` and the value of the part.
abbrev pub With : Type 0 → Type 0
With A = List ℕ × A

-- The field numbers that its branches match, the code of the branches, and its share of `encode`
-- and of `compute_size`.
pub record Part : Type 1 where
  pub State : Type 0
  pub matches : ℕ → Bool
  pub decode_branch : {R E : Type 0} (rd : PbRead R E) → Tag → Into rd (With State) (Unit {0})
  pub encode : {W E : Type 0} (wr : PbWrite W E) → With State → M (PbEncoder W) E (Unit {0})
  pub size : With State → ℕ

module _ {R E : Type 0} (rd : PbRead R E) where
  -- `let mut_ref = &mut self.fname; ..`.
  abbrev pub on_value : {A B : Type 0} → Into rd A B → Into rd (With A) B
  on_value m p = let out = m (p.0, p.1.1) in (out.0, (out.1.0, (p.1.0, out.1.1)))

  -- `let mut_ref = self.fname.get_or_insert_with(Default::default); ..`.
  abbrev pub on_some : {A B : Type 0} → A → Into rd A B → Into rd (Option A) B
  on_some default m p = let out = m (p.0, get_or default p.1) in (out.0, (out.1.0, some out.1.1))

  -- `let mut val = Default::default(); let mut_ref = &mut val; ..`, then the code with `val`.
  abbrev pub on_local :
      {A S : Type 0} → A → Into rd A (Unit {0}) → (A → Into rd S (Unit {0})) → Into rd S (Unit {0})
  on_local default m k p = let out = m (p.0, default) in go_on (λ u. k out.1.1) out.0 (out.1.0, p.1)

  -- `if !(..)? { return Err(CustomField) }`.
  abbrev pub or_custom_field : {S : Type 0} → Into rd S Bool → Into rd S (Unit {0})
  or_custom_field m = m >>= λ known. lift (if known then ok tt else err custom_field)

module _ {W E : Type 0} (wr : PbWrite W E) where
  -- The tag of a field and then its value.
  abbrev pub tagged : ℕ → ℕ → M (PbEncoder W) E (Unit {0}) → M (PbEncoder W) E (Unit {0})
  tagged num wire_type value = encode_varint32 wr (varint (from_parts num wire_type)) >> value

abbrev pub tag_len : ℕ → ℕ → ℕ
tag_len num wire_type = sizeof_tag (from_parts num wire_type)
