-- ===== src/Tool/Elf.antt =====
-- tool/add_auxdata.c: the headers of an ELF file that is mapped to memory. The structs of elf.h are a
-- parameter: how a header is read from the bytes at an address, and its size.
use baremetal_crt.Common.{
  ℕ, zero, suc, ◌+◌, ◌*◌, ◌%◌, ◌^◌, Bool, not, ◌||◌, ◌&&◌, Option, none, some, List, [], ◌∷◌, ◌==◌,
  ltb, leb, if◌then◌else◌, get_elem?, ℤ, pos, is_nonzero, einval, enomem, eq_ℤ,
}
use baremetal_crt.CString.{CString, Memory}

-- The fields of `Elf32_Ehdr` and `Elf64_Ehdr` that are read.
pub record Ehdr : Type 0 where
  pub e_type : ℕ
  pub e_machine : ℕ
  pub e_version : ℕ
  pub e_entry : ℕ
  pub e_phoff : ℕ
  pub e_shoff : ℕ
  pub e_flags : ℕ
  pub e_ehsize : ℕ
  pub e_phentsize : ℕ
  pub e_phnum : ℕ
  pub e_shentsize : ℕ
  pub e_shnum : ℕ
  pub e_shstrndx : ℕ

-- `struct prg_header`, less its last two fields, which nothing writes.
pub record PrgHeader : Type 0 where
  pub p_type : ℕ
  pub p_flags : ℕ
  pub p_offset : ℕ
  pub p_vaddr : ℕ
  pub p_paddr : ℕ
  pub p_filesz : ℕ
  pub p_memsz : ℕ
  pub p_align : ℕ

-- `struct sec_header`
pub record SecHeader : Type 0 where
  pub sh_name : ℕ
  pub sh_type : ℕ
  pub sh_flags : ℕ
  pub sh_addr : ℕ
  pub sh_offset : ℕ
  pub sh_size : ℕ
  pub sh_link : ℕ
  pub sh_info : ℕ
  pub sh_addralign : ℕ
  pub sh_entsize : ℕ

-- The structs of one class of elf.h.
pub record Structs : Type 0 where
  pub ehdr : Memory → (at : ℕ) → Ehdr
  pub phdr : Memory → (at : ℕ) → PrgHeader
  pub shdr : Memory → (at : ℕ) → SecHeader
  pub phdr_size : ℕ
  pub shdr_size : ℕ

-- elf.h, and of the C library whether `calloc` gives the memory for so many entries, and the string at an
-- address.
pub record Host : Type 0 where
  pub elf32 : Structs
  pub elf64 : Structs
  pub calloc : (entries : ℕ) → Bool
  pub text : Memory → (at : ℕ) → CString
  pub strcmp : CString → CString → ℤ

-- `struct elf_info`, less the copies of the fields of the header, which `header` holds.
pub record ElfInfo : Type 0 where
  pub elf_size : ℕ
  pub buf : ℕ
  pub p_hdr_ent : ℕ
  pub s_hdr_ent : ℕ
  pub shstr_ent : ℕ
  pub shstr_size : ℕ
  pub elf_class : ℕ
  pub header : Ehdr
  pub phs : List PrgHeader
  pub shs : List SecHeader

-- `a + b` and `a * b` on `uint32_t` and `uint64_t`.
abbrev pub mul32 : ℕ → ℕ → ℕ
mul32 a b = a * b % 2 ^ 32

abbrev pub add64 : ℕ → ℕ → ℕ
add64 a b = (a + b) % 2 ^ 64

-- The result and `*parch`: the bytes of ELFMAG, then EI_CLASS is 4, ELFCLASS32 1 and ELFCLASS64 2.
unfoldable pub elf_get_class : Memory → (e_ident : ℕ) → ℤ × ℕ
elf_get_class m p =
    if not ((m p == 127) && (m (p + 1) == 69) && (m (p + 2) == 76) && (m (p + 3) == 70))
    then (einval, 0)
    else if m (p + 4) == 1
    then (pos 0, 32)
    else if m (p + 4) == 2
    then (pos 0, 64)
    else (einval, 0)

-- ET_EXEC is 2 and EM_RISCV 243.
unfoldable pub elf_is_valid_header : (elf_size : ℕ) → Ehdr → ℤ
elf_is_valid_header size e =
    if not (e.e_type == 2)
    then einval
    else if not (e.e_machine == 243)
    then einval
    else if (e.e_phoff == 0) || (e.e_phnum == 0) || (e.e_phentsize == 0)
    then einval
    else if ltb size (add64 e.e_phoff (mul32 e.e_phnum e.e_phentsize))
    then einval
    else if ltb size (add64 e.e_shoff (mul32 e.e_shnum e.e_shentsize))
    then einval
    else if e.e_shentsize == 0
    then einval
    else if leb e.e_shnum e.e_shstrndx
    then einval
    else if not (e.e_entry % 4 == 0)
    then einval
    else pos 0

-- `elf_read_elf32` and `elf_read_elf64`: the result and the header.
unfoldable pub elf_read_header : Structs → Memory → (buf : ℕ) → ℤ × Ehdr
elf_read_header s m buf =
    let e = s.ehdr m buf in
    if ltb e.e_phentsize s.phdr_size
    then (einval, e)
    else if ltb e.e_shentsize s.shdr_size
    then (einval, e)
    else (pos 0, e)

-- The loops of `elf_read_ph32` and `elf_read_ph64`, from entry `i` on.
unfoldable pub read_phs : Structs → Memory → (entries size left i : ℕ) → List PrgHeader
read_phs s m entries size zero i = []
read_phs s m entries size (suc n) i =
    s.phdr m (entries + mul32 i size) ∷ read_phs s m entries size n (i + 1)

-- The loops of `elf_read_shs32` and `elf_read_shs64`.
unfoldable pub read_shs : Structs → Memory → (entries size left i : ℕ) → List SecHeader
read_shs s m entries size zero i = []
read_shs s m entries size (suc n) i =
    s.shdr m (entries + mul32 i size) ∷ read_shs s m entries size n (i + 1)

-- The structs of the class.
abbrev pub structs_of : Host → (elf_class : ℕ) → Structs
structs_of host c = if c == 32 then host.elf32 else host.elf64

-- `elf_load`, less its output. The result, and what is loaded where it is 0; `none` for it otherwise.
unfoldable pub elf_load : Host → Memory → (buf len : ℕ) → ℤ × Option ElfInfo
unfolding elf_get_class elf_read_header elf_is_valid_header read_phs read_shs
elf_load host m buf len =
    let (r1, arch) = elf_get_class m buf in
    let s = structs_of host arch in
    let (r2, e) = elf_read_header s m buf in
    let r3 = elf_is_valid_header len e in
    if is_nonzero r1
    then (r1, none)
    else if is_nonzero r2
    then (r2, none)
    else if is_nonzero r3
    then (r3, none)
    else if not (host.calloc e.e_phnum)
    then (enomem, none)
    else if not (host.calloc e.e_shnum)
    then (enomem, none)
    else let shs = read_shs s m (buf + e.e_shoff) e.e_shentsize e.e_shnum 0 in
      elim (get_elem? shs e.e_shstrndx) [
        | none ↦ (einval, none)
        | some str ↦ (
          pos 0,
          some (record {
            elf_size = len;
            buf = buf;
            p_hdr_ent = buf + e.e_phoff;
            s_hdr_ent = buf + e.e_shoff;
            shstr_ent = buf + str.sh_offset;
            shstr_size = str.sh_size;
            elf_class = arch;
            header = e;
            phs = read_phs s m (buf + e.e_phoff) e.e_phentsize e.e_phnum 0;
            shs = shs;
          }),
        )
      ]

-- "(unknown)"
abbrev pub unknown_name : CString
unknown_name = 40 ∷ 117 ∷ 110 ∷ 107 ∷ 110 ∷ 111 ∷ 119 ∷ 110 ∷ 41 ∷ []

unfoldable pub get_sh_name : Host → Memory → ElfInfo → (off : ℕ) → CString
get_sh_name host m elf off =
    if leb elf.shstr_size off then unknown_name else host.text m (elf.shstr_ent + off)

-- The loop of `find_shs`.
unfoldable pub find_sec :
    Host → Memory → ElfInfo → (name : CString) → List SecHeader → Option SecHeader
unfolding get_sh_name
find_sec host m elf name [] = none
find_sec host m elf name (s ∷ ss) =
    let rest = find_sec host m elf name ss in
    if eq_ℤ (host.strcmp (get_sh_name host m elf s.sh_name) name) (pos 0) then some s else rest

unfoldable pub find_shs : Host → Memory → ElfInfo → (name : CString) → ℤ × Option SecHeader
unfolding find_sec
find_shs host m elf name = elim (find_sec host m elf name elf.shs) [
  | none ↦ (einval, none)
  | some s ↦ (pos 0, some s)
]
