-- ===== src/Tool/AuxData.antt =====
-- tool/add_auxdata.c: the program headers, and the sizes of the table, that are written to the section
-- `.auxdata` of an executable, where sys/init.c looks for them. `memcpy` of the C library is a parameter, as
-- are the addresses of the mapped file and of the local `aux`. The host is little-endian.
pub mod Embedded
use baremetal_crt.Common.{
  ℕ, zero, suc, ◌+◌, ◌-◌, ◌*◌, ◌/◌, ◌%◌, ◌^◌, Bool, true, false, ◌&&◌, Option, none, some, List, [],
  ◌∷◌, ltb, leb, if◌then◌else◌, ℤ, pos, is_nonzero, einval, enomem,
}
use baremetal_crt.CString.{CString, Memory}
use baremetal_crt.Tool.Elf.{
  Ehdr, SecHeader, ElfInfo, Host, Structs, mul32, add64, elf_load, find_shs,
}

-- `struct __aux_data` of the tool and `struct k_aux_data` of the C runtime.
pub record AuxData : Type 0 where
  pub valid : ℕ
  pub phent : ℕ
  pub phnum : ℕ
  pub phdr_size : ℕ

-- ".auxdata"
abbrev pub auxdata_name : CString
auxdata_name = 46 ∷ 97 ∷ 117 ∷ 120 ∷ 100 ∷ 97 ∷ 116 ∷ 97 ∷ []

-- `sizeof(struct __aux_data)`
abbrev pub sizeof_aux : ℕ
sizeof_aux = 32

-- A number of `width` bytes written at `a`.
unfoldable pub store_number : (width : ℕ) → Memory → (a v : ℕ) → Memory
store_number width m a v x = if leb a x && ltb x (a + width) then v / 256 ^ (x - a) % 256 else m x

-- A number of `width` bytes read at `a`.
unfoldable pub load_number : (width : ℕ) → Memory → (a : ℕ) → ℕ
load_number zero m a = 0
load_number (suc w) m a = m a + 256 * load_number w m (a + 1)

-- The members of `aux` set, at its address: 4 bytes of padding follow `valid`.
unfoldable pub store_aux : (at : ℕ) → AuxData → Memory → Memory
unfolding store_number
store_aux at aux m =
    store_number 8
      (store_number 8 (store_number 8 (store_number 4 m at aux.valid) (at + 8) aux.phent) (at + 16)
        aux.phnum)
      (at + 24) aux.phdr_size

-- A `struct k_aux_data` read from its address.
unfoldable pub load_aux : Memory → (at : ℕ) → AuxData
unfolding load_number
load_aux m at = record {
  valid = load_number 4 m at;
  phent = load_number 8 m (at + 8);
  phnum = load_number 8 m (at + 16);
  phdr_size = load_number 8 m (at + 24);
}

abbrev pub aux_of : Ehdr → AuxData
aux_of e = record {
  valid = 1;
  phent = e.e_phentsize;
  phnum = e.e_phnum;
  phdr_size = mul32 e.e_phentsize e.e_phnum;
}

-- `elf.e_phoff + aux.phdr_size`
abbrev pub headers_size : Ehdr → ℕ
headers_size e = add64 e.e_phoff (mul32 e.e_phentsize e.e_phnum)

-- `sz_req`
unfoldable pub size_required : Ehdr → ℕ
size_required e = add64 (add64 sizeof_aux e.e_phoff) (mul32 e.e_phentsize e.e_phnum)

-- `embed_auxv`, less its output. `elf_unload`, which frees the tables, returns 0.
unfoldable pub embed_auxv :
    Host
    → (memcpy : (dest src n : ℕ) → Memory → Memory) → (aux_at bin bin_sz : ℕ) → Memory
    → ℤ × Memory
unfolding size_required store_aux
embed_auxv host memcpy aux_at bin bin_sz m =
    let (r, loaded) = elf_load host m bin bin_sz in
    if is_nonzero r then (einval, m) else elim loaded [
      | none ↦ (einval, m)
      | some elf ↦
          let (r2, found) = find_shs host m elf auxdata_name in
          if is_nonzero r2 then (einval, m) else elim found [
            | none ↦ (einval, m)
            | some sec ↦
                let e = elf.header in
                let m1 = store_aux aux_at (aux_of e) m in
                if ltb sec.sh_size (size_required e)
                then (enomem, m1)
                else let dest = elf.buf + sec.sh_offset in
                  let m2 = memcpy dest aux_at sizeof_aux m1 in
                  (pos 0, memcpy (dest + sizeof_aux) elf.buf (headers_size e) m2)
          ]
    ]
