-- ===== src/Tool/AuxData/Embedded.antt =====
-- What `embed_auxv` of tool/add_auxdata.c leaves in the file, and what sys/init.c reads there.
use baremetal_crt.Common.{
  ℕ, zero, suc, ◌+◌, ◌-◌, ◌*◌, ◌/◌, ◌%◌, ◌^◌, ◌≤◌, ◌<◌, ◌≡◌, ◌≢◌, ◌⊎◌, inl, inr, refl, ap, sym, ◌∙◌,
  Bool, true, false, ◌&&◌, Option, none, some, Bool-cases, ltb, leb, if◌then◌else◌, arith, ℤ, pos,
  einval, is_nonzero,
}
use native.Mathlib.Nat.{pow-suc, div-div-eq-div-mul, mul_comm}
use baremetal_crt.CString.{Memory}
use baremetal_crt.Tool.Elf.{SecHeader, ElfInfo, Host, mul32, add64, elf_load, find_shs}
use baremetal_crt.Tool.AuxData.{
  AuxData, auxdata_name, sizeof_aux, store_number, load_number, store_aux, load_aux, aux_of,
  headers_size, size_required, embed_auxv,
}

div-pow : (v i : ℕ) → v / 256 / 256 ^ i ≡ v / 256 ^ (i + 1)
div-pow v i =
    let power : 256 * 256 ^ i ≡ 256 ^ (i + 1) =
      mul_comm 256 (256 ^ i) ∙ sym (pow-suc 256 i) ∙ ap (λ t. 256 ^ t) (omega arith) in
    div-div-eq-div-mul v 256 (256 ^ i) ∙ ap (λ t. v / t) power

-- The number whose bytes are at `a`.
load_number-bytes :
    (w : ℕ) (m : Memory) (a v : ℕ)
    → v < 256 ^ w
    → ((i : ℕ) → i < w → m (a + i) ≡ v / 256 ^ i % 256)
    → load_number w m a ≡ v
unfolding load_number
load_number-bytes zero m a v l f = omega arith
load_number-bytes (suc w) m a v l f =
    let rest : load_number w m (a + 1) ≡ v / 256 =
      load_number-bytes w m (a + 1) (v / 256) (omega (arith, l, pow-suc 256 w)) (λ i h.
        ap m (omega arith) ∙ f (i + 1) (omega arith) ∙ ap (λ t. t % 256) (sym (div-pow v i))) in
    let first : m a ≡ v % 256 =
      ap m (omega arith) ∙ f 0 (omega arith) ∙ ap (λ t. t % 256) (omega arith) in
    omega (arith, rest, first)

store_number-in :
    (w : ℕ) (m : Memory) (a v i : ℕ) → i < w → store_number w m a v (a + i) ≡ v / 256 ^ i % 256
unfolding store_number
store_number-in w m a v i l =
    let le : leb a (a + i) ≡ true = ground arith in
    let lt : ltb (a + i) (a + w) ≡ true = ground arith in
    rw (le, lt) (ap (λ t. v / 256 ^ t % 256) (omega arith))

store_number-out :
    (w : ℕ) (m : Memory) (a v x : ℕ) → (x < a) ⊎ (a + w ≤ x) → store_number w m a v x ≡ m x
unfolding store_number
store_number-out w m a v x o = ground arith

load_number-same :
    (w : ℕ) (m n : Memory) (a b : ℕ)
    → ((i : ℕ) → i < w → m (a + i) ≡ n (b + i))
    → load_number w m a ≡ load_number w n b
unfolding load_number
load_number-same zero m n a b f = refl
load_number-same (suc w) m n a b f =
    let rest =
      load_number-same w m n (a + 1) (b + 1)
        (λ i h. ap m (omega arith) ∙ f (i + 1) (omega arith) ∙ ap n (omega arith)) in
    let first : m a ≡ n b = ap m (omega arith) ∙ f 0 (omega arith) ∙ ap n (omega arith) in
    omega (arith, rest, first)

load-store :
    (w : ℕ) (m : Memory) (a v : ℕ) → v < 256 ^ w → load_number w (store_number w m a v) a ≡ v
load-store w m a v l = load_number-bytes w (store_number w m a v) a v l (store_number-in w m a v)

load-store_other :
    (w u : ℕ) (m : Memory) (a b v : ℕ)
    → (a + w ≤ b) ⊎ (b + u ≤ a)
    → load_number w (store_number u m b v) a ≡ load_number w m a
load-store_other w u m a b v o = load_number-same w (store_number u m b v) m a a (λ i h.
    store_number-out u m b v (a + i)
      (elim o [ inl l ↦ inl (omega arith) | inr l ↦ inr (omega arith) ]))

store_aux-out :
    (m : Memory) (at x : ℕ) (aux : AuxData)
    → (x < at) ⊎ (at + sizeof_aux ≤ x)
    → store_aux at aux m x ≡ m x
unfolding store_aux store_number
store_aux-out m at x aux o = ground arith

-- The members of `aux` fit their types.
abbrev Fits : AuxData → Type 0
Fits aux =
    (aux.valid < 2 ^ 32) × (aux.phent < 2 ^ 64) × (aux.phnum < 2 ^ 64) × (aux.phdr_size < 2 ^ 64)

load-store_aux :
    (m : Memory) (at : ℕ) (aux : AuxData) → Fits aux → load_aux (store_aux at aux m) at ≡ aux
unfolding store_aux load_aux
load-store_aux m at aux (v, e, n, s) =
    let m1 = store_number 4 m at aux.valid in
    let m2 = store_number 8 m1 (at + 8) aux.phent in
    let m3 = store_number 8 m2 (at + 16) aux.phnum in
    λ i. record {
      valid =
          (load-store_other 4 8 m3 at (at + 24) aux.phdr_size (inl (omega arith))
              ∙ load-store_other 4 8 m2 at (at + 16) aux.phnum (inl (omega arith))
              ∙ load-store_other 4 8 m1 at (at + 8) aux.phent (inl (omega arith))
              ∙ load-store 4 m at aux.valid v)
            i;
      phent =
          (load-store_other 8 8 m3 (at + 8) (at + 24) aux.phdr_size (inl (omega arith))
              ∙ load-store_other 8 8 m2 (at + 8) (at + 16) aux.phnum (inl (omega arith))
              ∙ load-store 8 m1 (at + 8) aux.phent e)
            i;
      phnum =
          (load-store_other 8 8 m3 (at + 16) (at + 24) aux.phdr_size (inl (omega arith))
              ∙ load-store 8 m2 (at + 16) aux.phnum n)
            i;
      phdr_size = load-store 8 m3 (at + 24) aux.phdr_size s i;
    }

load_aux-same :
    (m n : Memory) (a b : ℕ)
    → ((i : ℕ) → i < sizeof_aux → m (a + i) ≡ n (b + i))
    → load_aux m a ≡ load_aux n b
unfolding load_aux
load_aux-same m n a b f =
    let part : (w off : ℕ)
        → off + w ≤ sizeof_aux
        → load_number w m (a + off) ≡ load_number w n (b + off) =
      λ w off l.
        load_number-same w m n (a + off) (b + off)
          (λ i h. ap m (omega arith) ∙ f (off + i) (omega arith) ∙ ap n (omega arith)) in
    λ i. record {
      valid = load_number-same 4 m n a b (λ j h. f j (omega arith)) i;
      phent = part 8 8 (omega arith) i;
      phnum = part 8 16 (omega arith) i;
      phdr_size = part 8 24 (omega arith) i;
    }

-- `memcpy`: bytes between objects that do not overlap.
abbrev pub Copies : (memcpy : (dest src n : ℕ) → Memory → Memory) → Type 0
Copies memcpy =
    (dest src n : ℕ) (m : Memory)
    → (dest + n ≤ src) ⊎ (src + n ≤ dest)
    → (x : ℕ)
    → memcpy dest src n m x ≡ (if leb dest x && ltb x (dest + n) then m (src + (x - dest)) else m x)

Copies-in :
    (memcpy : (dest src n : ℕ) → Memory → Memory) (dest src n i : ℕ) (m : Memory)
    → Copies memcpy
    → (dest + n ≤ src) ⊎ (src + n ≤ dest)
    → i < n
    → memcpy dest src n m (dest + i) ≡ m (src + i)
Copies-in memcpy dest src n i m copies o l =
    let le : leb dest (dest + i) ≡ true = ground arith in
    let lt : ltb (dest + i) (dest + n) ≡ true = ground arith in
    rw (copies dest src n m o (dest + i), le, lt) (ap m (omega arith))

Copies-out :
    (memcpy : (dest src n : ℕ) → Memory → Memory) (dest src n x : ℕ) (m : Memory)
    → Copies memcpy
    → (dest + n ≤ src) ⊎ (src + n ≤ dest)
    → (x < dest) ⊎ (dest + n ≤ x)
    → memcpy dest src n m x ≡ m x
Copies-out memcpy dest src n x m copies o l = ground (arith, copies dest src n m o x)

-- A step of `embed_auxv`: an error stops it with nothing written.
step-fails {ℓ} :
    {A : Type ℓ} (m : Memory) (x : ℕ) (failed : Bool) (found : Option A) (next : A → ℤ × Memory)
    → ((a : A) → (next a).0 ≢ pos 0 → (next a).1 x ≡ m x)
    → let out : ℤ × Memory =
        if failed then (einval, m) else elim found [ none ↦ (einval, m) | some a ↦ next a ] in
      out.0 ≢ pos 0 → out.1 x ≡ m x
step-fails m x true found next f e = refl
step-fails m x false none next f e = refl
step-fails m x false (some a) next f e = f a e

module _ (host : Host) (memcpy : (dest src n : ℕ) → Memory → Memory) (aux_at bin bin_sz : ℕ) where
  -- An executable with a section `.auxdata` that is large enough, that starts after the headers and ends within
  -- the file, as the tool does not check: `embed_auxv` returns 0, the C runtime reads its `struct k_aux_data` from the start of the section,
  -- the bytes up to the end of the program headers follow, and no other byte of the file changes.
  -- For counts of 16 bits, and a local `aux` above the mapped file.
  pub embed_auxv-embeds :
      Copies memcpy
      → (m : Memory) (elf : ElfInfo) (sec : SecHeader)
      → elf_load host m bin bin_sz ≡ (pos 0, some elf)
      → find_shs host m elf auxdata_name ≡ (pos 0, some sec)
      → elf.header.e_phentsize < 2 ^ 16
      → elf.header.e_phnum < 2 ^ 16
      → elf.header.e_phoff + mul32 elf.header.e_phentsize elf.header.e_phnum ≤ sec.sh_offset
      → size_required elf.header ≤ sec.sh_size
      → sec.sh_offset + sec.sh_size ≤ elf.elf_size
      → elf.buf + elf.elf_size ≤ aux_at
      → aux_at + sizeof_aux < 2 ^ 64
      → let dest = elf.buf + sec.sh_offset in
        (m' : Memory) × (embed_auxv host memcpy aux_at bin bin_sz m ≡ (pos 0, m'))
        × (load_aux m' dest ≡ aux_of elf.header)
        × ((i : ℕ) → i < headers_size elf.header → m' (dest + sizeof_aux + i) ≡ m (elf.buf + i))
        × ((x : ℕ)
            → x < aux_at
            → (x < dest) ⊎ (dest + sizeof_aux + headers_size elf.header ≤ x)
            → m' x ≡ m x)
  unfolding embed_auxv size_required
  embed_auxv-embeds copies m elf sec loaded found p n before room inside below top =
      let e = elf.header in
      let dest = elf.buf + sec.sh_offset in
      let hs = headers_size e in
      let m1 = store_aux aux_at (aux_of e) m in
      let m2 = memcpy dest aux_at sizeof_aux m1 in
      let m3 = memcpy (dest + sizeof_aux) elf.buf hs m2 in
      let enough : ltb sec.sh_size
            (add64 (add64 sizeof_aux e.e_phoff) (mul32 e.e_phentsize e.e_phnum))
          ≡ false =
        ground arith in
      let far : sizeof_aux + dest ≤ aux_at = omega (arith, room) in
      let apart1 : (dest + sizeof_aux ≤ aux_at) ⊎ (aux_at + sizeof_aux ≤ dest) =
        inl (omega arith) in
      let apart2 : (dest + sizeof_aux + hs ≤ elf.buf) ⊎ (elf.buf + hs ≤ dest + sizeof_aux) =
        inr (omega arith) in
      let first : (x : ℕ) → (x < dest) ⊎ (dest + sizeof_aux ≤ x) → m2 x ≡ m1 x =
        λ x o. Copies-out memcpy dest aux_at sizeof_aux x m1 copies apart1 o in
      let second : (x : ℕ) → (x < dest + sizeof_aux) ⊎ (dest + sizeof_aux + hs ≤ x) → m3 x ≡ m2 x =
        λ x o. Copies-out memcpy (dest + sizeof_aux) elf.buf hs x m2 copies apart2 o in
      (
        m3,
        rw (loaded, found, enough) refl,
        load_aux-same m3 m1 dest aux_at (λ i h.
              second (dest + i) (inl (omega arith))
              ∙ Copies-in memcpy dest aux_at sizeof_aux i m1 copies apart1 h)
            ∙ load-store_aux m aux_at (aux_of e)
                (omega arith, omega arith, omega arith, omega arith),
        λ i h.
            Copies-in memcpy (dest + sizeof_aux) elf.buf hs i m2 copies apart2 h
            ∙ first (elf.buf + i) (inl (omega arith))
            ∙ store_aux-out m aux_at (elf.buf + i) (aux_of e) (inl (omega arith)),
        λ x h o.
            second x (elim o [ inl l ↦ inl (omega arith) | inr l ↦ inr (omega arith) ])
            ∙ first x (elim o [ inl l ↦ inl (omega arith) | inr l ↦ inr (omega arith) ])
            ∙ store_aux-out m aux_at x (aux_of e) (inl h),
      )

  -- Where `embed_auxv` fails, no byte changes but those of its local `aux`.
  pub embed_auxv-fails :
      (m : Memory) (x : ℕ)
      → (x < aux_at) ⊎ (aux_at + sizeof_aux ≤ x)
      → (embed_auxv host memcpy aux_at bin bin_sz m).0 ≢ pos 0
      → (embed_auxv host memcpy aux_at bin bin_sz m).1 x ≡ m x
  unfolding embed_auxv
  embed_auxv-fails m x o =
      step-fails m x (is_nonzero (elf_load host m bin bin_sz).0) (elf_load host m bin bin_sz).1 _
        (λ elf.
          step-fails m x (is_nonzero (find_shs host m elf auxdata_name).0)
            (find_shs host m elf auxdata_name).1 _
            (λ sec e. elim (Bool-cases (ltb sec.sh_size (size_required elf.header))) [
              | inl q ↦ rw q (store_aux-out m aux_at x (aux_of elf.header) o)
              | inr q ↦ absurd (e (rw q refl))
            ]))
