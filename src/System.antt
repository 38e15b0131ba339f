-- ===== src/System.antt =====
-- system.go: the capability contracts that the packages share, as records of operations over a
-- state, with errors as values. A context is its error, if it is done.
use fluxplane_system.Prelude.{ℕ, ◌≡◌, refl, ◌⊎◌, inl, inr, Bool, true, false, List, Option}
use fluxplane_system.GoText.{Text}

-- Each error that the packages return, without its text.
pub data Error : Type 0 where
  end_of_file not_exist no_such_root : Error
  invalid_name not_a_directory is_a_directory already_exists parent_not_directory : Error
  cannot_remove_root not_empty separator_in_pattern temp_exhausted : Error
  virtual_root read_only primary_not_configured missing_root_name : Error
  nil_base invalid_root_name invalid_access duplicate_root no_roots escapes_root : Error
  unterminated_single unterminated_double unterminated_escape invalid_key : Error
  empty_pattern absolute_pattern pattern_escapes unmatched_brace malformed_brace : Error
  empty_alternative multiple_braces : Error
  unsupported blocked_target no_allowed_address invalid_url bad_method : Error
  nil_capability short_write no_steps_left : Error
  invalid_entry control_character bad_command : Error

-- What a call returns that may fail.
pub data Result {ℓ} (V : Type ℓ) : Type ℓ where
  err : Error → Result V
  ok : V → Result V

-- An early return unless the test holds.
abbrev pub guard : Bool → Error → Result (Unit {0})
guard false reason = err reason
guard true reason = ok tt

infixl 5 ◌>>=◌
abbrev pub ◌>>=◌ {κ ℓ} : {V : Type κ} {W : Type ℓ} → Result V → (V → Result W) → Result W
err reason >>= next = err reason
ok value >>= next = next value

infixl 5 ◌>>◌
abbrev pub ◌>>◌ {ℓ} : {W : Type ℓ} → Result (Unit {0}) → Result W → Result W
check >> next = check >>= λ _. next

pub Result-cases {ℓ} :
    {A : Type ℓ} (r : Result A) → ((a : A) × (r ≡ ok a)) ⊎ ((e : Error) × (r ≡ err e))
Result-cases (ok a) = inl (a, refl)
Result-cases (err e) = inr (e, refl)

-- `ctx.Err()`; `none` is a nil context, or one that is not done.
abbrev pub Context : Type 0
Context = Option Error

abbrev pub Bytes : Type 0
Bytes = List ℕ

-- `fs.ModeDir`
abbrev pub mode_dir : ℕ
mode_dir = 0x80000000

-- `fs.ModeType`
abbrev pub mode_type : ℕ
mode_type = 0x8f280000

pub record FileInfo : Type 0 where
  pub name : Text
  pub size : ℕ
  pub mode : ℕ
  pub mod_time : ℕ
  pub is_dir : Bool

pub record DirEntry : Type 0 where
  pub name : Text
  pub is_dir : Bool
  pub kind : ℕ
  pub info : FileInfo

-- An open file: what its reads return, the error that they end in if that is not `io.EOF`, and what
-- it lists if it is a directory handle with a method `ReadDir`.
pub record File : Type 0 where
  pub stat : FileInfo
  pub content : Bytes
  pub failure : Option Error
  pub listing : Option (List DirEntry)

pub record WriteFileOptions : Type 0 where
  pub perm : ℕ
  pub overwrite : Bool

pub record WriteTempFileOptions : Type 0 where
  pub perm : ℕ

pub record MkdirOptions : Type 0 where
  pub perm : ℕ

pub record RenameOptions : Type 0 where
  pub overwrite : Bool

-- What an operation that changes the state `S` gives.
abbrev pub Outcome : Type 0 → Type 0 → Type 0
Outcome S A = Result A × S

-- Continue a change if it succeeded, on the state that it left.
abbrev pub on_ok : {S A B : Type 0} → Outcome S A → (A → S → Outcome S B) → Outcome S B
on_ok (ok a, s) k = k a s
on_ok (err e, s) k = (err e, s)

-- The interface `FileSystem`, over the state that an implementation keeps.
pub record FileSystem (S : Type 0) : Type 0 where
  pub open_file : Text → S → Result File
  pub stat : Text → S → Result FileInfo
  pub read_dir : Text → S → Result (List DirEntry)
  pub read_file : Text → S → Result Bytes
  pub write_file : Context → Text → Bytes → WriteFileOptions → S → Outcome S (Unit {0})
  pub write_temp_file : Context → Text → Text → Bytes → WriteTempFileOptions → S → Outcome S Text
  pub mkdir_all : Context → Text → MkdirOptions → S → Outcome S (Unit {0})
  pub remove : Context → Text → S → Outcome S (Unit {0})
  pub rename : Context → Text → Text → RenameOptions → S → Outcome S (Unit {0})

-- A property of a continued change, from the property of both outcomes.
pub on_ok_cases {ℓ} :
    {S A B : Type 0} (P : Outcome S B → Type ℓ) (r : Outcome S A) (k : A → S → Outcome S B)
    → ((a : A) → r.0 ≡ ok a → P (k a r.1))
    → ((e : Error) → r.0 ≡ err e → P (err e, r.1))
    → P (on_ok r k)
on_ok_cases P (ok a, s) k good bad = good a refl
on_ok_cases P (err e, s) k good bad = bad e refl

pub Unit-eq : (a : Unit {0}) → a ≡ tt
Unit-eq tt = refl

-- Inversion of a successful bind, and of a guard before something else.
pub >>=-eq-ok {κ ℓ} :
    {V : Type κ} {W : Type ℓ} (r : Result V) (next : V → Result W) {out : W}
    → (r >>= next) ≡ ok out
    → (value : V) × (r ≡ ok value) × (next value ≡ ok out)
>>=-eq-ok (err reason) next e = cc
>>=-eq-ok (ok value) next e = (value, refl, e)

pub guard-eq-ok :
    {B : Type 0} (test : Bool) (e : Error) (r : Result B) {b : B}
    → (guard test e >> r) ≡ ok b
    → (test ≡ true) × (r ≡ ok b)
guard-eq-ok true e r h = (refl, h)
guard-eq-ok false e r h = cc

pub ok-injective {ℓ} : {A : Type ℓ} {a b : A} → ok a ≡ ok b → a ≡ b
ok-injective h = cc
