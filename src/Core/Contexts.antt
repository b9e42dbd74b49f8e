-- ===== src/Core/Contexts.antt =====
-- `libusb_init` and `libusb_exit` of libusb/libusb/core.c: the contexts of the process, with the default
-- context that its users share and count. Not here: the environment variable for the log level, and the
-- hotplug callbacks and events that `libusb_exit` handles before it releases the devices.
pub mod Reach
pub mod Uses
use zerousb.Prelude.{
  ℕ, ◌+◌, ◌-◌, Bool, true, false, ◌&&◌, not, Option, none, some, List, [], ◌∷◌, if◌then◌else◌, ◌==◌,
  ltb, Outcome, ret, fault, null_deref, use_after_free,
}
use zerousb.Usb.{Error, no_mem, Success, Result, ok, err}
use zerousb.Core.Devices.{Context, remove, unref_device}
use zerousb.Io.Setup
use zerousb.Io.Setup.{Io, io_init, io_exit}

-- `usbi_default_context`, `default_context_refcnt`, `active_contexts_list`, the contexts that are
-- allocated, those for which the backend is initialised, what each context knows, and the open
-- descriptors of the process.
pub record Globals : Type 0 where
  pub default_context : Option ℕ
  pub default_context_refcnt : ℕ
  pub active : List ℕ
  pub allocated : List ℕ
  pub backends : List ℕ
  pub contexts : ℕ → Context
  pub io : ℕ → Io
  pub fds : List ℕ

-- What the system and the backend answer in libusb_init: the address from calloc, the backend's `init`
-- with the devices it finds, and what usbi_io_init is given.
pub record Answers : Type 0 where
  pub calloc : Option ℕ
  pub backend_init : Context → Option Error × Context
  pub io : Setup.Answers

abbrev pub contains : ℕ → List ℕ → Bool
contains c [] = false
contains c (x ∷ xs) = if c == x then true else contains c xs

-- ctx == usbi_default_context
abbrev pub is_default : ℕ → Option ℕ → Bool
is_default c none = false
is_default c (some d) = c == d

abbrev pub set_context : ℕ → Context → Globals → Globals
set_context c x g = record g { contexts = λ j. if j == c then x else g.contexts j }

-- list_for_each_entry_safe(dev, next, &ctx->usb_devs, ...) { list_del; libusb_unref_device }
abbrev pub release_devices : List ℕ → Context → Context
release_devices [] ctx = ctx
release_devices (dev ∷ devs) ctx =
    release_devices devs (unref_device dev (record ctx { usb_devs = remove dev ctx.usb_devs }))

abbrev pub drop_default : Globals → Globals
drop_default g = record g {
  default_context = none;
  default_context_refcnt = g.default_context_refcnt - 1;
}

-- err_free_ctx
abbrev pub undo : ℕ → Globals → Globals
undo c g =
    let reset = if is_default c g.default_context then drop_default g else g in
    let ctx = g.contexts c in
    record (set_context c (release_devices ctx.usb_devs ctx) reset) {
      active = remove c g.active;
      allocated = remove c g.allocated;
    }

-- From calloc to the list of active contexts. A first context becomes the default one.
abbrev pub enlist : ℕ → Globals → Globals
enlist c g =
    let made = record g { allocated = c ∷ g.allocated; active = c ∷ g.active } in
    elim g.default_context [
      | none ↦ record made {
        default_context = some c;
        default_context_refcnt = g.default_context_refcnt + 1;
      }
      | some d ↦ made
    ]

-- usbi_io_init, and err_backend_exit where it fails.
abbrev pub set_up_io : ℕ → Result Success × Io → Globals → Result ℕ × Globals
set_up_io c (ok x, s) g = (ok c, record g { io = λ j. if j == c then s else g.io j; fds = s.fds })
set_up_io c (err x, s) g =
    (err x, undo c (record g { backends = remove c g.backends; fds = s.fds }))

abbrev pub set_up : ℕ → Setup.Answers → Option Error × Context → Globals → Result ℕ × Globals
set_up c a (some x, ctx) g = (err x, undo c (set_context c ctx g))
set_up c a (none, ctx) g =
    set_up_io c (io_init a g.fds) (record (set_context c ctx g) { backends = c ∷ g.backends })

abbrev pub create_at : Option ℕ → Answers → Globals → Result ℕ × Globals
create_at none a g = (err no_mem, g)
create_at (some c) a g = set_up c a.io (a.backend_init (g.contexts c)) (enlist c g)

abbrev pub create : Answers → Globals → Result ℕ × Globals
create a g = create_at a.calloc a g

-- if (!context && usbi_default_context)
abbrev pub reuse : Option ℕ → Answers → Globals → Result ℕ × Globals
reuse none a g = create a g
reuse (some d) a g = (ok d, record g { default_context_refcnt = g.default_context_refcnt + 1 })

-- libusb_init; `given` says whether a place for the context is given. The answer is the context that
-- the caller uses from then on: the new one, or the default one.
unfoldable pub init : Bool → Answers → Globals → Result ℕ × Globals
init true a g = create a g
init false a g = reuse g.default_context a g

-- USBI_GET_CONTEXT
abbrev pub get_context : Option ℕ → Globals → Option ℕ
get_context (some c) g = some c
get_context none g = g.default_context

-- libusb_exit from `list_del (&ctx->list)` on; a context that is not allocated any more is read there.
abbrev pub destroy : ℕ → Globals → Outcome Globals
destroy c g =
    if not (contains c g.allocated)
    then fault use_after_free
    else let ctx = g.contexts c in
      let left = if ctx.has_hotplug then release_devices ctx.usb_devs ctx else ctx in
      let done = io_exit (record (g.io c) { fds = g.fds }) in
      ret (record (set_context c left g) {
        active = remove c g.active;
        backends = remove c g.backends;
        allocated = remove c g.allocated;
        io = λ j. if j == c then done else g.io j;
        fds = done.fds;
      })

-- libusb_exit behind USBI_GET_CONTEXT. With neither a context nor a default one,
-- `ctx == usbi_default_context` holds, the count falls below 0, and the list entry of the NULL context is
-- taken out.
abbrev pub exit_of : Option ℕ → Globals → Outcome Globals
exit_of none g = fault null_deref
exit_of (some c) g =
    if not (is_default c g.default_context)
    then destroy c g
    else if ltb 0 (g.default_context_refcnt - 1)
    then ret (record g { default_context_refcnt = g.default_context_refcnt - 1 })
    else destroy c (drop_default g)

-- libusb_exit
unfoldable pub exit : Option ℕ → Globals → Outcome Globals
exit ctx g = exit_of (get_context ctx g) g
