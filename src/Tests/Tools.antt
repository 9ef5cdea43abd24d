-- ===== src/Tests/Tools.antt =====
-- A file of 180 bytes with two program headers and a section `.auxdata`, over headers whose fields are single bytes.
use baremetal_crt.Common.{
  ℕ, ◌+◌, ◌-◌, ◌≡◌, ◌≢◌, ◌<◌, ◌≤◌, ◌⊎◌, inl, refl, true, ◌&&◌, some, List, [], ◌∷◌, length, arith,
  ◌==◌, ltb, leb, if◌then◌else◌, pos, get_or,
}
use baremetal_crt.CString.{Memory}
use baremetal_crt.Tool.Elf.{Ehdr, PrgHeader, SecHeader, Structs, Host, ElfInfo, elf_load, find_shs}
use baremetal_crt.Tool.AuxData.{auxdata_name, load_aux, size_required, embed_auxv}
use baremetal_crt.Tool.AuxData.Embedded.{embed_auxv-embeds, embed_auxv-fails}

abbrev ehdr_at : Memory → (at : ℕ) → Ehdr
ehdr_at m p = record {
  e_type = m (p + 16);
  e_machine = m (p + 18);
  e_version = m (p + 20);
  e_entry = m (p + 24);
  e_phoff = m (p + 28);
  e_shoff = m (p + 32);
  e_flags = m (p + 36);
  e_ehsize = m (p + 40);
  e_phentsize = m (p + 42);
  e_phnum = m (p + 44);
  e_shentsize = m (p + 46);
  e_shnum = m (p + 48);
  e_shstrndx = m (p + 50);
}

abbrev phdr_at : Memory → (at : ℕ) → PrgHeader
phdr_at m p = record {
  p_type = m p;
  p_flags = 0;
  p_offset = m (p + 1);
  p_vaddr = m (p + 2);
  p_paddr = m (p + 2);
  p_filesz = m (p + 3);
  p_memsz = m (p + 3);
  p_align = 4;
}

abbrev shdr_at : Memory → (at : ℕ) → SecHeader
shdr_at m p = record {
  sh_name = m p;
  sh_type = 1;
  sh_flags = 0;
  sh_addr = 0;
  sh_offset = m (p + 1);
  sh_size = m (p + 2);
  sh_link = 0;
  sh_info = 0;
  sh_addralign = 1;
  sh_entsize = 0;
}

abbrev bytes : Structs
bytes = record { ehdr = ehdr_at; phdr = phdr_at; shdr = shdr_at; phdr_size = 4; shdr_size = 3 }

abbrev host : Host
host = record {
  elf32 = bytes;
  elf64 = bytes;
  calloc = λ entries. true;
  text = λ m p. if m p == 46 then auxdata_name else [];
  strcmp = λ s t. if length s == length t then pos 0 else pos 1;
}

abbrev ident : List ℕ
ident = 127 ∷ 69 ∷ 76 ∷ 70 ∷ 1 ∷ []

-- The program headers are at 52, the section headers at 60, and the names at 70.
abbrev file : Memory
file x =
    if ltb x 5
    then get_or ident x 0
    else if x == 16
    then 2
    else if x == 18
    then 243
    else if x == 28
    then 52
    else if x == 32
    then 60
    else if x == 42
    then 4
    else if x == 44
    then 2
    else if x == 46
    then 3
    else if x == 48
    then 2
    else if x == 60
    then 1
    else if x == 61
    then 70
    else if x == 62
    then 2
    else if x == 64
    then 80
    else if x == 65
    then 100
    else if x == 70
    then 46
    else 0

abbrev names : SecHeader
names = shdr_at file 60

abbrev auxdata : SecHeader
auxdata = shdr_at file 63

abbrev loaded_elf : ElfInfo
loaded_elf = record {
  elf_size = 180;
  buf = 0;
  p_hdr_ent = 52;
  s_hdr_ent = 60;
  shstr_ent = 70;
  shstr_size = 2;
  elf_class = 32;
  header = ehdr_at file 0;
  phs = phdr_at file 52 ∷ phdr_at file 56 ∷ [];
  shs = names ∷ auxdata ∷ [];
}

loads : elf_load host file 0 180 ≡ (pos 0, some loaded_elf)
unfolding elf_load
loads = refl

finds : find_shs host file loaded_elf auxdata_name ≡ (pos 0, some auxdata)
unfolding find_shs
finds = refl

abbrev copy : (dest src n : ℕ) → Memory → Memory
copy dest src n m x = if leb dest x && ltb x (dest + n) then m (src + (x - dest)) else m x

small : size_required (ehdr_at file 0) ≤ 100
unfolding size_required
small = omega arith

embed_auxv-embeds_example :
    (m' : Memory) × (embed_auxv host copy 1000 0 180 file ≡ (pos 0, m'))
    × (load_aux m' 80 ≡ record { valid = 1; phent = 4; phnum = 2; phdr_size = 8 })
    × ((i : ℕ) → i < 60 → m' (112 + i) ≡ file (0 + i))
    × ((x : ℕ) → x < 1000 → (x < 80) ⊎ (172 ≤ x) → m' x ≡ file x)
embed_auxv-embeds_example =
    embed_auxv-embeds host copy 1000 0 180 (λ dest src n m o x. refl) file loaded_elf auxdata loads
      finds (omega arith) (omega arith) (omega arith) small (omega arith) (omega arith)
      (omega arith)

-- No file at all.
abbrev zeros : Memory
zeros x = 0

refused : (embed_auxv host copy 1000 0 180 zeros).0 ≢ pos 0
unfolding embed_auxv elf_load
refused = ground arith

embed_auxv-fails_example : (embed_auxv host copy 1000 0 180 zeros).1 50 ≡ 0
embed_auxv-fails_example =
    embed_auxv-fails host copy 1000 0 180 zeros 50 (inl (omega arith)) refused
