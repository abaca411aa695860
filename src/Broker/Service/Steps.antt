-- ===== src/Broker/Service/Steps.antt =====
-- One request, as a step of the service of mbroker/mbroker.c.
use t_cnico_file_system_pt.Prelude.{
  ℕ, ◌<◌, ◌≤◌, ◌≡◌, refl, sym, ap, ◌∙◌, arith, inl, inr, ℤ, pos, is_minus_one, List, [], ◌∷◌, ◌++◌,
  Bool-cases, Option-cases, true, false, none, some, get_elem?, length,
}
use t_cnico_file_system_pt.State.Types.{State, free}
use t_cnico_file_system_pt.State.Dir.Laws.{IsFileName}
use t_cnico_file_system_pt.Invariant.Defs.{root_entries}
use t_cnico_file_system_pt.Operations.Open.{slash}
use t_cnico_file_system_pt.Boxes.Chain.{IsOutside}
use t_cnico_file_system_pt.Boxes.Delete.{without_first}
use t_cnico_file_system_pt.Boxes.Insert.{contents}
use t_cnico_file_system_pt.Messages.{Request, box_name_size}
use t_cnico_file_system_pt.Broker.{Broker, World, undefined, find}
use t_cnico_file_system_pt.Broker.Post.{continue-eq, continue-undefined}
use t_cnico_file_system_pt.Broker.Find.{GivesFresh, IsOutside-none, find-undefined}
use t_cnico_file_system_pt.Broker.Manage.{create_box, remove_box, list_box}
use t_cnico_file_system_pt.Broker.Manage.Create.{
  IsUnlisted, Keeps, no_file, no_handle, added, Adds, create_box-Adds,
}
use t_cnico_file_system_pt.Broker.Manage.Existing.{IsStanding}
use t_cnico_file_system_pt.Broker.Manage.Listing.{list_box-listing}
use t_cnico_file_system_pt.Broker.Manage.Removal.{remove_box-Removed}
use t_cnico_file_system_pt.Broker.Manage.Removal.Rest.{iterate-eq}
use t_cnico_file_system_pt.Broker.Manage.Missing.{remove_box-NotThere}
use t_cnico_file_system_pt.Broker.Sessions.{reg_publisher}
use t_cnico_file_system_pt.Broker.Sessions.Session.{Line, AreMessages}
use t_cnico_file_system_pt.Broker.Sessions.Session.Registered.{
  reg_publisher-missing, reg_publisher-there,
}
use t_cnico_file_system_pt.Broker.Service.Lists.{has, without, IsDistinct-snoc, IsDistinct-without}
use t_cnico_file_system_pt.Broker.Service.Boxes.{
  AreNamed, Located, length-AreNamed, first_named-none, first_named-Located, AreNamed-kept,
  AreNamed-snoc, AreNamed-without, without_first-first_named, FitNames-AreNamed,
}
use t_cnico_file_system_pt.Broker.Service.Listed.{IsListed-same, IsListed-insert, IsListed-remove}
use t_cnico_file_system_pt.Broker.Service.{
  to_create, to_remove, to_list, to_publish, published, turned_away, Holds, created, refused,
  removed, not_there, listed,
}
use t_cnico_file_system_pt.Broker.Service.Texts.{listing-AreNamed}
use t_cnico_file_system_pt.Broker.Service.Handled.{
  Handled, stepped, out_of_memory, Registered-Holds,
}

module _ (world : World) (fresh : GivesFresh world) {names : List (List ℕ)} {s : Broker}
    (holds : Holds names s) (enough : length names ≤ world.rounds) (pipe : List ℕ) (fd : ℕ)
    (opens : world.open_pipe pipe ≡ pos fd)
    (takes : (bytes : List ℕ) → world.accepts (pos fd) bytes ≡ true) where
  rounds_enough : length holds.boxes ≤ world.rounds
  rounds_enough = omega (arith, length-AreNamed s.heap holds.boxes names holds.named, enough)

  opened : is_minus_one (world.open_pipe pipe) ≡ false
  opened = rw opens refl

  accepts : (bytes : List ℕ) → world.accepts (world.open_pipe pipe) bytes ≡ true
  accepts = rw opens takes

  -- A request about a file name that fits, in the box's array behind its slash.
  module _ (code : ℤ) (first : ℕ) (rest : List ℕ) (file : IsFileName (first ∷ rest))
      (fits : length (slash ∷ first ∷ rest) < box_name_size) where
    abbrev request : Request
    request = record { code = code; client_pipe = pipe; box_name = slash ∷ first ∷ rest }

    unlisted :
        (u : ℕ)
        → world.malloc s.heap ≡ some u
        → has names (first ∷ rest) ≡ false
        → IsUnlisted world holds.boxes s (slash ∷ first ∷ rest) u first rest
    unlisted u m new = record {
      not_found = first_named-none s.heap holds.boxes names (first ∷ rest) holds.named new;
      fits = fits;
      allocated = m;
      is_path = refl;
      file_name = file;
      unlinked = (holds.listed (first ∷ rest) file).1 new;
    }

    outside : (u : ℕ) → world.malloc s.heap ≡ some u → IsOutside u holds.boxes
    outside u m = IsOutside-none s.heap s.head holds.boxes u holds.in_order.chain (fresh s.heap u m)

    kept_names :
        (u : ℕ) (s' : Broker)
        → world.malloc s.heap ≡ some u
        → Keeps s u s'
        → AreNamed s'.heap holds.boxes names
    kept_names u s' m k =
        AreNamed-kept s.heap s'.heap u holds.boxes names holds.named (outside u m)
          (λ x b e n. k.boxes x n)

    kept_handle :
        (s' : Broker)
        → s'.fs.free_open_file_entries ≡ s.fs.free_open_file_entries
        → get_elem? s'.fs.free_open_file_entries holds.free_handle ≡ some free
    kept_handle s' e = ap (λ t. get_elem? t holds.free_handle) e ∙ holds.is_free

    create_box-cases :
        (u : ℕ)
        → world.malloc s.heap ≡ some u
        → has names (first ∷ rest) ≡ false
        → Adds world holds.boxes s (pos fd) u (first ∷ rest) (create_box world request s)
        → Handled world names s (first ∷ rest) pipe (pos fd) to_create (create_box world request s)
    create_box-cases u m new (no_file s' why e ok k same quiet) =
        stepped e (refused new why quiet) (record {
          boxes = holds.boxes;
          in_order = ok;
          named = kept_names u s' m k;
          distinct = holds.distinct;
          listed = IsListed-same names s s' same holds.listed;
          free_handle = holds.free_handle;
          is_free = kept_handle s' k.handles;
        })
    create_box-cases u m new (no_handle s' none_free e ok quiet) =
        absurd (none_free holds.free_handle holds.is_free)
    create_box-cases u m new (added s' i e ok box k room inode linked says) =
        stepped e (created i new inode room says) (record {
          boxes = holds.boxes ++ (u ∷ []);
          in_order = ok;
          named =
              AreNamed-snoc s'.heap u holds.boxes names (first ∷ rest) (kept_names u s' m k) box
                fits;
          distinct = IsDistinct-snoc names (first ∷ rest) holds.distinct new;
          listed = IsListed-insert names s s' (first ∷ rest) i file new room linked holds.listed;
          free_handle = holds.free_handle;
          is_free = kept_handle s' k.handles;
        })

    find-none :
        has names (first ∷ rest) ≡ false
        → world.malloc s.heap ≡ none
        → find world (slash ∷ first ∷ rest) s ≡ undefined
    find-none new m =
        find-undefined world fresh holds.in_order rounds_enough (slash ∷ first ∷ rest) m
          (first_named-none s.heap holds.boxes names (first ∷ rest) holds.named new)

    pub create_box-Handled :
        has names (first ∷ rest) ≡ false
        → Handled world names s (first ∷ rest) pipe (pos fd) to_create (create_box world request s)
    unfolding create_box
    create_box-Handled new = elim (Option-cases (world.malloc s.heap)) [
      | inl m ↦
          out_of_memory (λ e. ground (arith, e)) new m
            (rw (opens, create_box) (continue-undefined _ _ (find-none new m)))
      | inr (u, m) ↦ create_box-cases u m new (
          create_box-Adds world request fd u first rest fresh holds.in_order rounds_enough opens
            takes (unlisted u m new))
    ]

    remove_box-missing :
        has names (first ∷ rest) ≡ false
        → Handled world names s (first ∷ rest) pipe (pos fd) to_remove (remove_box world request s)
    unfolding remove_box
    remove_box-missing new = elim (Option-cases (world.malloc s.heap)) [
      | inl m ↦
          out_of_memory (λ e. ground (arith, e)) new m
            (continue-eq _ _ tt s
                (iterate-eq world s holds.boxes holds.in_order.chain rounds_enough)
              ∙ rw (opened, remove_box) (continue-undefined _ _ (find-none new m)))
      | inr (u, m) ↦
          let o =
            remove_box-NotThere world request u first rest fresh holds.in_order rounds_enough opened
              accepts (unlisted u m new) in
          stepped o.returns (not_there new (rw (sym opens) o.says_so)) (record {
            boxes = holds.boxes;
            in_order = o.in_order;
            named =
                AreNamed-kept s.heap o.result.heap u holds.boxes names holds.named (outside u m)
                  (λ x b e n. ap contents (o.same_boxes x n));
            distinct = holds.distinct;
            listed = IsListed-same names s o.result (ap (root_entries 0) o.same_files) holds.listed;
            free_handle = holds.free_handle;
            is_free = kept_handle o.result (ap State.free_open_file_entries o.same_files);
          })
    ]

    standing :
        (f : Located s.heap holds.boxes (first ∷ rest))
        → has names (first ∷ rest) ≡ true
        → IsStanding holds.boxes s (slash ∷ first ∷ rest) f.address f.box first rest
    standing f there =
        let (i, linked) = (holds.listed (first ∷ rest) file).0 there in
        record {
          found = f.found;
          contents = f.here;
          is_path = refl;
          inumber = i;
          linked = linked;
          free_handle = holds.free_handle;
          is_free = holds.is_free;
        }

    remove_box-there :
        has names (first ∷ rest) ≡ true
        → Handled world names s (first ∷ rest) pipe (pos fd) to_remove (remove_box world request s)
    remove_box-there there =
        let f = first_named-Located s.heap holds.boxes names (first ∷ rest) holds.named there in
        let o =
          remove_box-Removed world request f.address f.box first rest fresh holds.in_order
            rounds_enough opened accepts (standing f there) file.bytes f.has_the_name
            (ap is_minus_one f.no_readers) in
        stepped o.returns (removed there (rw (sym opens) o.says_so)) (record {
          boxes = without_first s.heap holds.boxes (slash ∷ first ∷ rest);
          in_order = o.in_order;
          named =
              AreNamed-kept s.heap o.result.heap f.address
                (without_first s.heap holds.boxes (slash ∷ first ∷ rest))
                (without names (first ∷ rest))
                (AreNamed-without s.heap holds.boxes names (first ∷ rest) holds.named)
                (without_first-first_named s.heap holds.boxes (slash ∷ first ∷ rest) f.address
                  holds.in_order.simple f.found)
                o.others;
          distinct = IsDistinct-without names (first ∷ rest) holds.distinct;
          listed =
              IsListed-remove names s o.result (first ∷ rest) holds.boxes holds.in_order file
                holds.distinct o.unlisted holds.listed;
          free_handle = holds.free_handle;
          is_free = kept_handle o.result o.same_handles;
        })

    pub remove_box-Handled :
        Handled world names s (first ∷ rest) pipe (pos fd) to_remove (remove_box world request s)
    remove_box-Handled = elim (Bool-cases (has names (first ∷ rest))) [
      | inl y ↦ remove_box-there y
      | inr z ↦ remove_box-missing z
    ]

    reg_publisher-unlisted :
        has names (first ∷ rest) ≡ false
        → Handled world names s
            (first ∷ rest)
            pipe
            (pos fd)
            to_publish
            (reg_publisher world request s)
    unfolding reg_publisher
    reg_publisher-unlisted new = elim (Option-cases (world.malloc s.heap)) [
      | inl m ↦
          out_of_memory (λ e. ground (arith, e)) new m
            (rw (opened, reg_publisher) (continue-undefined _ _ (find-none new m)))
      | inr (u, m) ↦
          let (o, events) =
            reg_publisher-missing world request fresh holds.in_order rounds_enough opened u m
              (first_named-none s.heap holds.boxes names (first ∷ rest) holds.named new) in
          stepped o.returns (turned_away new (rw (sym opens) events))
            (Registered-Holds holds (reg_publisher world request s) o)
    ]

    pub reg_publisher-Handled :
        (lines : List Line)
        → AreMessages lines (world.published pipe)
        → Handled world names s
            (first ∷ rest)
            pipe
            (pos fd)
            to_publish
            (reg_publisher world request s)
    reg_publisher-Handled lines messages = elim (Bool-cases (has names (first ∷ rest))) [
      | inl y ↦
          let f = first_named-Located s.heap holds.boxes names (first ∷ rest) holds.named y in
          let (o, events) =
            reg_publisher-there world request fresh holds.in_order rounds_enough opened f.address
              f.box first rest lines (standing f y) f.has_the_name f.no_writer messages in
          stepped o.returns (published y (rw (sym opens) events))
            (Registered-Holds holds (reg_publisher world request s) o)
      | inr z ↦ reg_publisher-unlisted z
    ]

  pub list_box-Handled :
      (request : Request) (n : List ℕ)
      → request.client_pipe ≡ pipe
      → Handled world names s n pipe (pos fd) to_list (list_box world request s)
  list_box-Handled request n e =
      stepped
        (list_box-listing world request holds.in_order rounds_enough
          (FitNames-AreNamed s.heap holds.boxes names holds.named) (rw e opened) (rw e accepts))
        (listed (
          rw (e, opens, listing-AreNamed world (pos fd) s.heap holds.boxes names holds.named) refl))
        (record {
          boxes = holds.boxes;
          in_order = record {
            sound = holds.in_order.sound;
            unlocked = holds.in_order.unlocked;
            chain = holds.in_order.chain;
            simple = holds.in_order.simple;
          };
          named = holds.named;
          distinct = holds.distinct;
          listed = λ n f. holds.listed n f;
          free_handle = holds.free_handle;
          is_free = holds.is_free;
        })
