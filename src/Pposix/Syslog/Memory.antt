-- ===== src/Pposix/Syslog/Memory.antt =====
-- util-src/pposix.c: lc_syslog_open, lc_syslog_log and lc_syslog_close in any order, against a log
-- without pointers.
use prosody_trunk.Base.{
  ℕ, ◌≡◌, refl, ap, ◌∙◌, Bool, true, false, Option, none, some, ◌>>=◌, ◌==◌, if◌then◌else◌, List,
  [], ◌∷◌, ◌++◌, get_or, arith,
}
use prosody_trunk.Pposix.Syslog.{
  level_constants, facility_constants, level_strings, facility_strings, check_option, Heap, put,
  State, free_block, free_ident, strdup, opened, lc_syslog_open, lc_syslog_close, Line, read_block,
  read_ident, line_text, line_of, lc_syslog_log,
}

-- A call of the module, with what `malloc` answers.
pub data Op : Type 0 where
  open_log : List ℕ → List ℕ → Option ℕ → Op
  log : List ℕ → List ℕ → Option (List ℕ) → Op
  close_log : Op

pub no_line : Option (Bool × State) → Option (List Line × State)
no_line none = none
no_line (some (ok, st)) = some ([], st)

pub closed : Option State → Option (List Line × State)
closed none = none
closed (some st) = some ([], st)

pub one_line : State → Option (Option Line) → Option (List Line × State)
one_line st none = none
one_line st (some none) = some ([], st)
one_line st (some (some line)) = some (line ∷ [], st)

pub step : State → Op → Option (List Line × State)
step st (open_log ident facility address) = no_line (lc_syslog_open st ident facility address)
step st close_log = closed (lc_syslog_close st)
step st (log level a b) = one_line st (lc_syslog_log st level a b)

-- The lines that the calls log, and the state after them; `none` is a fault in any of them.
pub continued : List Line → Option (List Line × State) → Option (List Line × State)
continued lines none = none
continued lines (some (more, st)) = some (lines ++ more, st)

pub run : State → List Op → Option (List Line × State)
run st [] = some ([], st)
run st (op ∷ ops) = do (lines, st') ← step st op; continued lines (run st' ops)

-- The specification has no pointers: the ident and the facility of the log.
abbrev pub Log : Type 0
Log = Option (List ℕ) × ℕ

-- Where there was no memory for the ident the log has none.
pub kept : Option ℕ → List ℕ → Option (List ℕ)
kept none ident = none
kept (some p) ident = some ident

pub log_open : Log → List ℕ → Option ℕ → Option ℕ → Log
log_open l ident address none = l
log_open l ident address (some f) = (kept address ident, get_or facility_constants f 0)

pub log_lines : Log → List ℕ → Option (List ℕ) → Option ℕ → List Line
log_lines l a b none = []
log_lines l a b (some level) =
    record {
      facility = l.1;
      level = get_or level_constants level 0;
      ident = l.0;
      text = line_text a b;
    }
    ∷ []

pub log_step : Log → Op → List Line × Log
log_step l (open_log ident facility address) =
    ([], log_open l ident address (check_option facility facility_strings 0))
log_step l close_log = ([], (none, l.1))
log_step l (log level a b) = (log_lines l a b (check_option level level_strings 0), l)

pub log_run : Log → List Op → List Line × Log
log_run l [] = ([], l)
log_run l (op ∷ ops) =
    let rest = log_run (log_step l op).1 ops in ((log_step l op).0 ++ rest.0, rest.1)

-- The only block is the copy of the ident, if there is one.
pub data Holds : Option ℕ → Heap → Option (List ℕ) → Type 0 where
  nothing : {heap : Heap} → ((q : ℕ) → heap q ≡ none) → Holds none heap none
  copy :
      {p : ℕ} {s : List ℕ} {heap : Heap}
      → ((q : ℕ) → heap q ≡ (if p == q then some s else none))
      → Holds (some p) heap (some s)

pub record Represents (st : State) (l : Log) : Type 0 where
  pub block : Holds st.syslog_ident st.heap l.0
  pub held : st.held ≡ st.syslog_ident
  pub facility : st.facility ≡ l.1

-- Reading the copy at its own address.
at_own : (p : ℕ) (s t : Option (List ℕ)) → (if p == p then s else t) ≡ s
at_own p s t = ground arith

-- Freeing the ident leaves no block.
freed :
    {ident : Option ℕ} {heap : Heap} {s : Option (List ℕ)}
    → Holds ident heap s
    → (heap' : Heap) × (free_ident heap ident ≡ some heap') × ((q : ℕ) → heap' q ≡ none)
unfolding free_ident free_block
freed (nothing {heap} none_left) = (heap, refl, none_left)
freed (copy {p} {s} {heap} one) = (
  put heap p none,
  ap (free_block heap p) (one p ∙ at_own p _ _),
  λ q. emptied (p == q) s (one q),
)
  where
    emptied :
        (b : Bool) {x : Option (List ℕ)} (s : List ℕ)
        → x ≡ (if b then some s else none)
        → (if b then none else x) ≡ none
    emptied true s e = refl
    emptied false s e = e

-- What `strdup` leaves, in a heap without blocks.
strdup-Holds :
    (address : Option ℕ) (ident : List ℕ) (heap : Heap)
    → ((q : ℕ) → heap q ≡ none)
    → Holds address (strdup heap address ident) (kept address ident)
unfolding strdup kept
strdup-Holds none ident heap h = nothing h
strdup-Holds (some p) ident heap h = copy (λ q. ap (λ x. if p == q then some ident else x) (h q))

-- The C library reads the ident that the specification has.
read :
    {ident : Option ℕ} {heap : Heap} {s : Option (List ℕ)}
    → Holds ident heap s
    → read_ident heap ident ≡ some s
unfolding read_ident read_block
read (nothing none_left) = refl
read (copy {p} one) = ap read_block (one p ∙ at_own p _ _)

-- A step that does not fault logs the lines of the specification, and represents its log after it.
abbrev Follows : Option (List Line × State) → List Line × Log → Type 0
Follows r out = (st : State) × (r ≡ some (out.0, st)) × Represents st out.1

opened-Follows :
    (st : State) (l : Log) (ident : List ℕ) (address f : Option ℕ)
    → Represents st l
    → Follows (no_line (opened st ident address f)) ([], log_open l ident address f)
unfolding opened no_line log_open
opened-Follows st l ident address none r = (st, refl, r)
opened-Follows st l ident address (some f) r =
    let (heap, e, h) = freed r.block in
    (
      _,
      rw e refl,
      record { block = strdup-Holds address ident heap h; held = refl; facility = refl },
    )

closed-Follows :
    (st : State) (l : Log)
    → Represents st l
    → Follows (closed (lc_syslog_close st)) ([], (none, l.1))
unfolding closed lc_syslog_close
closed-Follows st l r =
    let (heap, e, h) = freed r.block in
    (_, rw e refl, record { block = nothing h; held = refl; facility = r.facility })

line-Follows :
    (st : State) (l : Log) (a : List ℕ) (b level : Option _)
    → Represents st l
    → Follows (one_line st (line_of st a b level)) (log_lines l a b level, l)
unfolding one_line line_of log_lines
line-Follows st l a b none r = (st, refl, r)
line-Follows st l a b (some level) r = (st, rw (r.facility, r.held) (rw (read r.block) refl), r)

step-Follows :
    (st : State) (l : Log) (op : Op) → Represents st l → Follows (step st op) (log_step l op)
unfolding step log_step lc_syslog_open lc_syslog_log
step-Follows st l (open_log ident facility address) r = opened-Follows st l ident address _ r
step-Follows st l close_log r = closed-Follows st l r
step-Follows st l (log level a b) r = line-Follows st l a b _ r

-- Calls of open, log and close in any order, from a state with no block but the copy of the ident:
-- none of them frees or reads memory that is not allocated, the lines they log are those of the
-- specification, which has the ident itself in place of pointers to it, and afterwards too there is
-- no block but the copy of the ident, so that none is leaked.
pub syslog_refines :
    (st : State) (l : Log) (ops : List Op)
    → Represents st l
    → (st' : State) × (run st ops ≡ some ((log_run l ops).0, st'))
      × Represents st' (log_run l ops).1
unfolding run log_run continued
syslog_refines st l [] r = (st, refl, r)
syslog_refines st l (op ∷ ops) r =
    let (st', e, r') = step-Follows st l op r in
    let (st'', e', r'') = syslog_refines st' (log_step l op).1 ops r' in
    (st'', rw e (ap (continued (log_step l op).0) e'), r'')
