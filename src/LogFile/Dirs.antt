-- ===== src/LogFile/Dirs.antt =====
-- muduo/base/LogFile.cc, isExistFilePath and createDir: a directory is made with all directories
-- above it.
use telnet_serv.Prelude.{
  ℕ, ◌+◌, ◌-◌, Bool, true, false, not, ◌&&◌, Option, none, some, List, [], ◌∷◌, ltb, leb, ◌==◌,
  if◌then◌else◌, get_or, set, take, replicate,
}
use telnet_serv.FixedBuffer.{memcpy}

-- enum enErrorCode
pub data ErrorCode : Type 0 where
  no_error too_many_links createdir_fail : ErrorCode

-- What mkdir(2) comes to: 0, EMLINK, or any other error.
pub data MkDir : Type 0 where
  made links_full refused : MkDir

-- What LogFile calls: access(2), mkdir(2), time(2), opendir with readdir, system(3), localtime_r
-- with strftime of ".%Y%m%d" and of ".%Y%m%d-%H%M%S.", ProcessInfo, and FileUtil::AppendFile, over
-- a state `W` of the world and a type `F` of open files; `open_file` is `none` where fopen fails.
pub record Host : Type 1 where
  pub W : Type 0
  pub F : Type 0
  pub access : List ℕ → W → Bool
  pub mkdir : List ℕ → W → MkDir × W
  pub time : W → ℕ × W
  pub read_dir : List ℕ → W → Option (List (List ℕ))
  pub system : List ℕ → W → W
  pub day_text : ℕ → List ℕ
  pub second_text : ℕ → List ℕ
  pub hostname : List ℕ
  pub pid_text : List ℕ
  pub open_file : List ℕ → W → Option (F × W)
  pub append_file : List ℕ → F → W → F × W
  pub flush_file : F → W → W
  pub close_file : F → W → W
  pub written_bytes : F → ℕ

-- MAX_IDS_PATH_LEN
abbrev pub max_ids_path_len : ℕ
max_ids_path_len = 256

-- `while (pTmp)` with strchr(pTmp + 1, '\\'): every backslash before the first NUL. `none` says that
-- there is no NUL in the array.
unfoldable pub to_slashes : List ℕ → Option (List ℕ)
to_slashes [] = none
to_slashes (c ∷ cs) =
    let rest = to_slashes cs in
    if c == 0
    then some (c ∷ cs)
    else elim rest [ none ↦ none | some ds ↦ some ((if c == 92 then b'/' else c) ∷ ds) ]

-- strchr(s, '/') + 1: what stands behind the first slash, and its offset. `none` is the use of NULL,
-- or a read behind the array.
unfoldable pub behind_slash : List ℕ → ℕ → Option (List ℕ × ℕ)
behind_slash [] i = none
behind_slash (c ∷ cs) i =
    if c == b'/' then some (cs, i + 1) else if c == 0 then none else behind_slash cs (i + 1)

module _ (h : Host) where
  open h use {W, access, mkdir}

  -- bool isExistFilePath(const char* pszFileName)
  abbrev pub is_exist_file_path : List ℕ → W → Bool
  is_exist_file_path path w = access path w

  -- wErrorCode and bRet behind a mkdir(2).
  abbrev pub noted : MkDir → Bool → Bool × ErrorCode
  noted made ok = (true, no_error)
  noted links_full ok = (ok, too_many_links)
  noted refused ok = (ok, createdir_fail)

  -- The body of the loop, for the directory `dir`.
  unfoldable pub make_one : List ℕ → Bool → ErrorCode → W → Bool × ErrorCode × W
  make_one dir ok err w =
      if not (is_exist_file_path dir w)
      then (let (res, w') = mkdir dir w in let (ok', err') = noted res ok in (ok', err', w'))
      else (ok, err, w)

  abbrev pub is_no_error : ErrorCode → Bool
  is_no_error no_error = true
  is_no_error _ = false

  -- `while (pTmp)` with strchr(pTmp + 1, '/'): the directory up to each further slash, from offset
  -- `i` on, in turn. A path of 256 bytes does not fit szTmpDir with its NUL.
  unfoldable pub make_dirs :
      List ℕ → List ℕ → ℕ → Bool → ErrorCode → W → Option (Bool × ErrorCode × W)
  make_dirs dir [] i ok err w = none
  make_dirs dir (c ∷ cs) i ok err w = elim (c == b'/') [
    | false ↦ elim (c == 0) [
      | true ↦ some (true, err, w)
      | false ↦ make_dirs dir cs (i + 1) ok err w
    ]
    | true ↦
        let (ok', err', w') = make_one (take (i + 1) dir) ok err w in
        elim (leb 255 i) [
          | true ↦ none
          | false ↦ elim (is_no_error err') [
            | true ↦ make_dirs dir cs (i + 1) ok' err' w'
            | false ↦ some (ok', err', w')
          ]
        ]
  ]

  -- createDir from the second strchr of '/' on; `dir` is achDir.
  unfoldable pub make_path : List ℕ → ErrorCode → W → Option (Bool × ErrorCode × W)
  make_path dir err w = elim (behind_slash dir 0) [
    | none ↦ none
    | some (rest, i) ↦ make_dirs dir rest i false err w
  ]

  -- createDir behind the first test: `name` is pszDirName, `dir` achDir before its backslashes are
  -- turned round.
  unfoldable pub end_with_slash : List ℕ → ℕ → ErrorCode → W → Option (Bool × ErrorCode × W)
  end_with_slash dir len err w = elim (to_slashes dir) [
    | none ↦ none
    | some dir' ↦
        if get_or dir' (len - 1) 0 == b'/'
        then make_path dir' err w
        else if ltb max_ids_path_len (len + 1)
        then some (false, err, w)
        else make_path (set dir' len b'/') err w
  ]

  -- bool createDir(const char* pszDirName, uint32_t dwDirLen, uint16_t& wErrorCode). `none` says
  -- that it leaves an array.
  unfoldable pub create_dir : List ℕ → ℕ → ErrorCode → W → Option (Bool × ErrorCode × W)
  create_dir name len err w =
      if ltb max_ids_path_len len
      then some (false, err, w)
      else (let dir = memcpy (replicate max_ids_path_len 0) 0 name len in
          let first = get_or dir 0 0 in
          if not (b'/' == first) && not (b'.' == first)
          then some (false, err, w)
          else end_with_slash dir len err w)
