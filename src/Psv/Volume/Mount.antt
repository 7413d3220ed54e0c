-- ===== src/Psv/Volume/Mount.antt =====
-- A volume that PSV_setup wrote and PSV_mount reads.
use martian_os.Prelude.{
  ℕ, zero, suc, ◌<◌, ◌≡◌, refl, sym, ap, ◌∙◌, true, false, List, [], ◌∷◌, get_or, set, length,
  replicate, arith,
}
use mathlib.Core.Path.{subst}
use martian_os.CString.{codes, strncpy}
use martian_os.CString.Compare.{AreBytes}
use martian_os.CString.Copy.{strncpy_lem}
use martian_os.CString.Bytes.{are_bytes, are_bytes-AreBytes, strncpy-AreBytes, zeros-AreBytes}
use martian_os.Word.{zeros}
use martian_os.Psv.Types.{folder, name_len_lim, fterm_num_lim, iterm_num_lim}
use martian_os.Psv.Bitmap.{is_free, get_bitmap}
use martian_os.Psv.Location.{idx2lba}
use martian_os.Psv.Volume.{
  Layout, Volume, zero_name, zero_fterm, zero_iterm, read_sb, read_fnode, write_fnode, enter,
}
use martian_os.Psv.Volume.Shape.{IsName, IsFterm, IsIterm, IsFnode, IsSb, Encodes}
use martian_os.Psv.Volume.Setup.{root_term, setup_sb, setup_root, psv_setup, psv_mount}

-- What `strncpy` makes of a name.
pub strncpy-IsName :
    (dest src : List ℕ) → IsName dest → AreBytes src → IsName (strncpy dest src name_len_lim)
strncpy-IsName dest src hd hs = record {
  long = (strncpy_lem dest src name_len_lim (omega (arith, hd.long))).2 ∙ hd.long;
  bytes = strncpy-AreBytes dest src name_len_lim hd.bytes hs;
}

pub zero_name-IsName : IsName zero_name
zero_name-IsName = record { long = refl; bytes = zeros-AreBytes name_len_lim }

-- A read of a list that repeats one value.
pub get_or-replicate {ℓ} : {A : Type ℓ} → (n i : ℕ) (a : A) → get_or (replicate n a) i a ≡ a
get_or-replicate zero i a = refl
get_or-replicate (suc n) zero a = refl
get_or-replicate (suc n) (suc i) a = get_or-replicate n i a

pub zero_fterm-IsFterm : IsFterm zero_fterm
zero_fterm-IsFterm = record { used_byte = omega arith; name = zero_name-IsName; idx = omega arith }

pub zero_iterm-IsIterm : IsIterm zero_iterm
zero_iterm-IsIterm = record { used_int = omega arith; name = zero_name-IsName; idx = omega arith }

root_term-IsFterm : (name : List ℕ) → are_bytes name ≡ true → IsFterm (root_term name)
unfolding root_term
root_term-IsFterm name h = record {
  used_byte = omega arith;
  name = strncpy-IsName zero_name name zero_name-IsName (are_bytes-AreBytes name h);
  idx = omega arith;
}

-- A property of every element, kept by a write.
pub set-each {ℓ κ} :
    {A : Type ℓ}
    → (P : A → Type κ) (ts : List A) (k : ℕ) (t d : A) → P t
    → ((i : ℕ) → P (get_or ts i d))
    → (i : ℕ) → P (get_or (set ts k t) i d)
set-each P [] k t d ht h i = h i
set-each P (u ∷ ts) zero t d ht h zero = ht
set-each P (u ∷ ts) zero t d ht h (suc i) = h (suc i)
set-each P (u ∷ ts) (suc k) t d ht h zero = h 0
set-each P (u ∷ ts) (suc k) t d ht h (suc i) = set-each P ts k t d ht (λ j. h (suc j)) i

pub replicate-each {ℓ κ} :
    {A : Type ℓ} → (P : A → Type κ) (n : ℕ) (d : A) → P d → (i : ℕ) → P (get_or (replicate n d) i d)
replicate-each P n d h i = subst P (sym (get_or-replicate n i d)) h

replicate_word : (n i : ℕ) → i < n → length (get_or (replicate n (zeros 32)) i []) ≡ 32
replicate_word zero i h = elim h [ ]
replicate_word (suc n) zero h = refl
replicate_word (suc n) (suc i) h = replicate_word n i (omega arith)

pub setup_root-IsFnode : IsFnode setup_root
unfolding setup_root
setup_root-IsFnode = record {
  name =
      strncpy-IsName zero_name (codes "/") zero_name-IsName (are_bytes-AreBytes (codes "/") refl);
  fterm_count = (1, refl, omega arith);
  iterm_count = (0, refl, omega arith);
  fterm_slots = refl;
  iterm_slots = refl;
  fterm_shapes =
      set-each IsFterm (replicate fterm_num_lim zero_fterm) 0 (root_term (codes ".")) zero_fterm
        (root_term-IsFterm (codes ".") refl)
        (replicate-each IsFterm fterm_num_lim zero_fterm zero_fterm-IsFterm);
  iterm_shapes = replicate-each IsIterm iterm_num_lim zero_iterm zero_iterm-IsIterm;
}

pub setup_sb-IsSb : IsSb setup_sb
unfolding setup_sb
setup_sb-IsSb = record {
  label =
      strncpy-IsName zero_name (codes "Perseverance") zero_name-IsName
        (are_bytes-AreBytes (codes "Perseverance") refl);
  maps = record {
    fnodes = refl;
    inode_words = refl;
    inodes = replicate_word 2;
    db_words = refl;
    dbs = replicate_word 64;
  };
  fnodes = (omega arith, omega arith);
  inodes = (omega arith, omega arith);
  dbs = (omega arith, omega arith);
  offsets = (omega arith, omega arith, omega arith);
  root_shape = root_term-IsFterm (codes "/") refl;
}

root_marked : is_free setup_sb folder 0 ≡ false
unfolding setup_sb get_bitmap
root_marked = refl

-- What PSV_setup writes PSV_mount finds again, whatever was in memory and on the disk before, and
-- whatever the flush took from behind its buffer: the super block of an empty volume, and its root
-- folder as the current one. It holds for a layout that copies structures to the disk and back.
pub psv_mount-psv_setup :
    (l : Layout) (behind : ℕ → l.Sector) (v : Volume l.Sector)
    → Encodes l
    → ((psv_mount l (psv_setup l behind v)).super_block ≡ setup_sb)
      × ((psv_mount l (psv_setup l behind v)).current_folder ≡ setup_root)
unfolding psv_mount psv_setup enter read_sb read_fnode write_fnode idx2lba
psv_mount-psv_setup l behind v enc =
    let sb = enc.sb_back setup_sb setup_sb-IsSb in
    (
      sb,
      rw (ap (λ s. is_free s folder 0) sb ∙ root_marked)
          (enc.fnode_back setup_root setup_root-IsFnode),
    )
