-- ===== src/Fildes/Pending.antt =====
-- modules/libc/src/fildes/seekbuf_tx.c: the write set of a transaction, and the file that it stands for.
use picotm.Prelude.{
  ℕ, ◌+◌, ◌-◌, ◌≤◌, ◌<◌, ◌≡◌, refl, sym, ◌∙◌, ap, inl, inr, arith, false, ◌&&◌, List, [], ◌∷◌, ◌++◌,
  ltb, leb, Bool-cases, if_true, if_false, fun_ext,
}
use picotm.Fildes.{IoOp, memcpy}
use picotm.Fildes.Ranges.{Fits, max_of}
use picotm.Fildes.Overlay.{overlay, overlay_all, grown_size, AllFit, OpFits, NoGap}
use picotm.Fildes.Seekbuf.{is_through, SeekbufTx}
use picotm.Fildes.Calls.{written}

-- The bytes of every write are in the used part of the buffer.
abbrev pub StoredIn : List IoOp → ℕ → Type 0
StoredIn [] len = Unit {0}
StoredIn (op ∷ ops) len = (op.bufoff + op.nbyte ≤ len) × StoredIn ops len

-- With the file as it is and its size, the write set of the transaction stands for the file `f` of `n` bytes.
pub record IsPending (b : SeekbufTx) (content : ℕ → ℕ) (size : ℕ) (f : ℕ → ℕ) (n : ℕ) : Type 0 where
  pub waits : is_through b.wrmode ≡ false
  pub fits : AllFit b.wrtab.ops
  pub no_gap : NoGap b.wrtab.ops size
  pub stored : StoredIn b.wrtab.ops b.wrbuflen
  pub same_bytes : (a : ℕ) → overlay_all b.wrtab.ops b.wrbuf content a ≡ f a
  pub same_size : grown_size b.wrtab.ops size ≡ n

pub overlay_all-snoc :
    (ops : List IoOp) (op : IoOp) (iobuf f : ℕ → ℕ)
    → overlay_all (ops ++ op ∷ []) iobuf f ≡ overlay op iobuf (overlay_all ops iobuf f)
overlay_all-snoc [] op iobuf f = refl
overlay_all-snoc (o ∷ ops) op iobuf f = overlay_all-snoc ops op iobuf (overlay o iobuf f)

pub grown_size-snoc :
    (ops : List IoOp) (op : IoOp) (size : ℕ)
    → grown_size (ops ++ op ∷ []) size ≡ max_of (grown_size ops size) (op.off + op.nbyte)
grown_size-snoc [] op size = refl
grown_size-snoc (o ∷ ops) op size = grown_size-snoc ops op (max_of size (o.off + o.nbyte))

pub AllFit-snoc : (ops : List IoOp) (op : IoOp) → AllFit ops → OpFits op → AllFit (ops ++ op ∷ [])
AllFit-snoc [] op k l = (l, tt)
AllFit-snoc (o ∷ ops) op (k, ks) l = (k, AllFit-snoc ops op ks l)

pub NoGap-snoc :
    (ops : List IoOp) (op : IoOp) (size : ℕ)
    → NoGap ops size
    → op.off ≤ grown_size ops size
    → NoGap (ops ++ op ∷ []) size
NoGap-snoc [] op size k l = (l, tt)
NoGap-snoc (o ∷ ops) op size (k, ks) l = (k, NoGap-snoc ops op (max_of size (o.off + o.nbyte)) ks l)

pub StoredIn-snoc :
    (ops : List IoOp) (op : IoOp) (len len2 : ℕ)
    → StoredIn ops len
    → len ≤ len2
    → op.bufoff + op.nbyte ≤ len2
    → StoredIn (ops ++ op ∷ []) len2
StoredIn-snoc [] op len len2 k m l = (l, tt)
StoredIn-snoc (o ∷ ops) op len len2 (k, ks) m l =
    (omega arith, StoredIn-snoc ops op len len2 ks m l)

-- The bytes behind the used part of the buffer do not matter.
pub overlay_all-StoredIn :
    (ops : List IoOp) (iobuf iobuf2 f : ℕ → ℕ) (len a : ℕ)
    → StoredIn ops len
    → ((i : ℕ) → i < len → iobuf2 i ≡ iobuf i)
    → overlay_all ops iobuf2 f a ≡ overlay_all ops iobuf f a
overlay_all-StoredIn [] iobuf iobuf2 f len a k same = refl
overlay_all-StoredIn (op ∷ ops) iobuf iobuf2 f len a (k, ks) same =
    overlay_all-StoredIn ops iobuf iobuf2 (overlay op iobuf2 f) len a ks same
    ∙ ap (λ g. overlay_all ops iobuf g a) (fun_ext λ c. one c)
  where
    one : (c : ℕ) → overlay op iobuf2 f c ≡ overlay op iobuf f c
    one c = elim (Bool-cases (leb op.off c && ltb c (op.off + op.nbyte))) [
      | inl here ↦
          if_true (leb op.off c && ltb c (op.off + op.nbyte)) _ _ here
          ∙ same (op.bufoff + (c - op.off)) (ground arith)
          ∙ sym (if_true (leb op.off c && ltb c (op.off + op.nbyte)) _ _ here)
      | inr elsewhere ↦
          if_false (leb op.off c && ltb c (op.off + op.nbyte)) _ _ elsewhere
          ∙ sym (if_false (leb op.off c && ltb c (op.off + op.nbyte)) _ _ elsewhere)
    ]

-- With no gap between the writes, the bytes behind the end of the file do not matter before the end of the
-- file that the writes make.
pub overlay_all-NoGap :
    (ops : List IoOp) (iobuf f g : ℕ → ℕ) (size a : ℕ)
    → NoGap ops size
    → (a < size → f a ≡ g a)
    → a < grown_size ops size
    → overlay_all ops iobuf f a ≡ overlay_all ops iobuf g a
overlay_all-NoGap [] iobuf f g size a n same l = same l
overlay_all-NoGap (op ∷ ops) iobuf f g size a (le, n) same l =
    overlay_all-NoGap ops iobuf (overlay op iobuf f) (overlay op iobuf g)
      (max_of size (op.off + op.nbyte)) a n covered l
  where
    covered : a < max_of size (op.off + op.nbyte) → overlay op iobuf f a ≡ overlay op iobuf g a
    covered m = elim (Bool-cases (leb op.off a && ltb a (op.off + op.nbyte))) [
      | inl here ↦
          if_true (leb op.off a && ltb a (op.off + op.nbyte)) _ _ here
          ∙ sym (if_true (leb op.off a && ltb a (op.off + op.nbyte)) _ _ here)
      | inr elsewhere ↦
          if_false (leb op.off a && ltb a (op.off + op.nbyte)) _ _ elsewhere
          ∙ same (ground arith)
          ∙ sym (if_false (leb op.off a && ltb a (op.off + op.nbyte)) _ _ elsewhere)
    ]

-- The write set after a write of some bytes.
pub memcpy-IsPending :
    (b : SeekbufTx) (d : ℕ → ℕ) (nbyte offset room : ℕ) (content : ℕ → ℕ) (size : ℕ) (f : ℕ → ℕ)
    (n : ℕ)
    → IsPending b content size f n
    → Fits offset nbyte
    → Fits b.wrbuflen nbyte
    → offset ≤ n
    → IsPending
        (record b {
          wrbuf = memcpy b.wrbuf b.wrbuflen d 0 nbyte;
          wrbuflen = b.wrbuflen + nbyte;
          wrtab = record {
            ops = b.wrtab.ops ++ (record { off = offset; nbyte = nbyte; bufoff = b.wrbuflen }) ∷ [];
            room = room;
          };
        })
        content
        size
        (written d nbyte offset f)
        (max_of n (offset + nbyte))
unfolding memcpy
memcpy-IsPending b d nbyte offset room content size f n p h k le =
    let op : IoOp = record { off = offset; nbyte = nbyte; bufoff = b.wrbuflen } in
    let buf = memcpy b.wrbuf b.wrbuflen d 0 nbyte in
    record {
      waits = p.waits;
      fits = AllFit-snoc b.wrtab.ops op p.fits (h, k);
      no_gap = NoGap-snoc b.wrtab.ops op size p.no_gap (omega (arith, p.same_size));
      stored =
          StoredIn-snoc b.wrtab.ops op b.wrbuflen (b.wrbuflen + nbyte) p.stored (omega arith)
            (omega arith);
      same_bytes = λ a.
          ap (λ (g : ℕ → ℕ). g a) (overlay_all-snoc b.wrtab.ops op buf content)
          ∙ elim (Bool-cases (leb offset a && ltb a (offset + nbyte))) [
            | inl here ↦
                if_true (leb offset a && ltb a (offset + nbyte)) _ _ here
                ∙ if_true
                    (leb b.wrbuflen (b.wrbuflen + (a - offset))
                      && ltb (b.wrbuflen + (a - offset)) (b.wrbuflen + nbyte))
                    _ _ (ground arith)
                ∙ ap d (omega arith)
                ∙ sym (if_true (leb offset a && ltb a (offset + nbyte)) _ _ here)
            | inr elsewhere ↦
                if_false (leb offset a && ltb a (offset + nbyte)) _ _ elsewhere
                ∙ overlay_all-StoredIn b.wrtab.ops b.wrbuf buf content b.wrbuflen a p.stored
                    (λ i l. ground arith)
                ∙ p.same_bytes a
                ∙ sym (if_false (leb offset a && ltb a (offset + nbyte)) _ _ elsewhere)
          ];
      same_size =
          grown_size-snoc b.wrtab.ops op size ∙ ap (λ t. max_of t (offset + nbyte)) p.same_size;
    }
