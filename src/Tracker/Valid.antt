-- ===== src/Tracker/Valid.antt =====
-- The invariant of the tracker's state, and the updates of which the handlers are made.
pub mod Handlers
pub mod Server
use p2p_file_sharing.Base.{
  String, ◌≡◌, refl, ◌≢◌, ◌⊎◌, inl, inr, List, [], ◌∷◌, length, none, some, Option, arith,
  if◌then◌else◌, String-cases, Option-cases, str_eq,
}
use p2p_file_sharing.Base.Map.{
  Map, lookup, insert, delete, lookup-insert, Every, Every-nil, Every-insert, Every-delete,
}
use p2p_file_sharing.Tracker.State.{User, Group, File, State, Outcome, after}
use p2p_file_sharing.Tracker.Groups.{put_group}
use p2p_file_sharing.Tracker.Files.{file_key}

-- A file is stored under its key, counts its chunks, has an owner, and its group exists.
pub record FileIsValid (groups : Map Group) (k : String) (f : File) : Type 0 where
  pub keyed : k ≡ file_key f.group_id f.file_name
  pub counted : f.total_chunks ≡ length f.chunks
  pub owned : f.owners ≢ []
  pub grouped : lookup f.group_id groups ≢ none

pub record IsValid (s : State) : Type 0 where
  pub users_keyed : Every (λ k u. u.user_id ≡ k) s.users
  pub groups_keyed : Every (λ k g. g.group_id ≡ k) s.groups
  pub files_valid : Every (FileIsValid s.groups) s.files

abbrev pub KeepsValid : (State → List String → Outcome) → Type 0
KeepsValid h = (s : State) (args : List String) → IsValid s → IsValid (after s (h s args))

pub FileIsValid-mono :
    (m n : Map Group) (k : String) (f : File)
    → ((g : String) → lookup g m ≢ none → lookup g n ≢ none)
    → FileIsValid m k f
    → FileIsValid n k f
FileIsValid-mono m n k f grow v = record {
  keyed = v.keyed;
  counted = v.counted;
  owned = v.owned;
  grouped = grow f.group_id v.grouped;
}

insert_grows :
    (k : String) (g : Group) (m : Map Group) (j : String)
    → lookup j m ≢ none
    → lookup j (insert k g m) ≢ none
insert_grows k g m j h = ground (arith, lookup-insert k j g m)

module _ (s : State) (v : IsValid s) (k : String) where
  pub put_user-IsValid :
      (u : User) → u.user_id ≡ k → IsValid (record s { users = insert k u s.users })
  put_user-IsValid u e = record {
    users_keyed = Every-insert _ k u s.users v.users_keyed e;
    groups_keyed = v.groups_keyed;
    files_valid = v.files_valid;
  }

  pub put_group-IsValid : (g : Group) → g.group_id ≡ k → IsValid (put_group s k g)
  put_group-IsValid g e = record {
    users_keyed = v.users_keyed;
    groups_keyed = Every-insert _ k g s.groups v.groups_keyed e;
    files_valid = λ j f h.
        FileIsValid-mono s.groups (insert k g s.groups) j f (insert_grows k g s.groups)
          (v.files_valid j f h);
  }

  pub put_file-IsValid :
      (f : File) → FileIsValid s.groups k f → IsValid (record s { files = insert k f s.files })
  put_file-IsValid f p = record {
    users_keyed = v.users_keyed;
    groups_keyed = v.groups_keyed;
    files_valid = Every-insert _ k f s.files v.files_valid p;
  }

  pub drop_file-IsValid : IsValid (record s { files = delete k s.files })
  drop_file-IsValid = record {
    users_keyed = v.users_keyed;
    groups_keyed = v.groups_keyed;
    files_valid = Every-delete _ k s.files v.files_valid;
  }

pub empty-IsValid : IsValid (record { users = []; groups = []; files = [] })
empty-IsValid = record {
  users_keyed = Every-nil _;
  groups_keyed = Every-nil _;
  files_valid = Every-nil _;
}
