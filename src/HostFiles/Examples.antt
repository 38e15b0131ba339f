-- ===== src/HostFiles/Examples.antt =====
-- The theorems on the host's files at a concrete operating system.
use fluxplane_system.Prelude.{Bool, ◌||◌, length, ◌≡◌, false, [], ◌∷◌, if◌then◌else◌}
use fluxplane_system.GoText.{Text, codes, text_eq}
use fluxplane_system.System.{ok, err, not_exist, Bytes, FileInfo}
use fluxplane_system.HostFiles.{Os}

-- A host with the file of another user, whose content is the state, and a link to it below the root.
-- The calls follow the link. Every path exists but `/work/new`.
abbrev other_file : Text
other_file = codes "/other"

abbrev link : Text
link = codes "/work/link"

abbrev new_file : Text
new_file = codes "/work/new"

abbrev leads_out : Text → Bool
leads_out path = text_eq path other_file || text_eq path link

abbrev changed : Text → Bytes → Bytes → Bytes
changed path content s = if leads_out path then content else s

abbrev some_info : FileInfo
some_info = record { name = []; size = 0; mode = 0; mod_time = 0; is_dir = false }

abbrev host : Os Bytes
host = record {
  eval_symlinks = λ path _. ok (if text_eq path link then other_file else path);
  rel = λ root path. if text_eq path other_file then ok (codes "../other") else ok (codes "a");
  lstat = λ path _. if text_eq path new_file then err not_exist else ok some_info;
  stat = λ _ _. err not_exist;
  open_file = λ _ _. err not_exist;
  read_dir = λ _ _. err not_exist;
  read_file = λ _ _. err not_exist;
  mkdir_all = λ _ _ s. (ok tt, s);
  open_write = λ path _ _ s. (ok tt, changed path [] s);
  write = λ path content s. (ok (length content), changed path content s);
  close = λ _ s. (ok tt, s);
  create_temp = λ dir pattern s. (ok (codes "/work/tmp"), s);
  chmod = λ _ _ s. (ok tt, s);
  remove = λ path s. (ok tt, changed path [] s);
  rename = λ a b s. (ok tt, changed a [] (changed b [] s));
  mkdir_temp = λ _ _ s. (err not_exist, s);
  remove_all = λ path s. (ok tt, changed path [] s);
}

abbrev Untouched : Bytes → Type 0
Untouched s = s ≡ 7 ∷ []
