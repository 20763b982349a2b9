-- ===== src/Actions/Listing/Printed.antt =====
-- What the listings print.
use consul_scheduler.Prelude.{◌≡◌, refl, inl, inr, List, [], ◌∷◌, length, All, String, Assoc}
use consul_scheduler.Api.Types.{Task, Host, TaskQueryOpts, any_task}
use consul_scheduler.Api.Results.{Result, ok, err, ◌>>=◌, Returns, Returns-and_then, Result-cases}
use consul_scheduler.Api.Backend.{SchedulerApi}
use consul_scheduler.Actions.Table.{Text, table}
use consul_scheduler.Actions.Table.Widths.{IsRectangular, table-IsRectangular}
use consul_scheduler.Actions.Listing.{
  task_header, host_header, host_row, task_rows, scheduled_of, list_tasks, host_rows, list_hosts,
  print_table,
}

abbrev RowsFit : List Text → Result (List (List Text)) → Type 0
RowsFit header (err e) = Unit
RowsFit header (ok rows) = All (λ r. length r ≡ length header) rows

-- Lines of one length below an empty one, or an error.
abbrev pub IsPrinted : Result (List Text) → Type 0
IsPrinted (err e) = Unit
IsPrinted (ok lines) = IsRectangular lines

print_table-IsPrinted :
    (header : List Text) (r : Result (List (List Text)))
    → RowsFit header r
    → Returns IsPrinted (print_table header r)
print_table-IsPrinted header (err e) h = tt
print_table-IsPrinted header (ok rows) h =
    Returns-and_then IsRectangular IsPrinted (table header rows) _
      (table-IsRectangular header rows h) (λ lines l. l)

module _ {S : Type 0} (api : SchedulerApi S) (s : S) where
  task_rows-fit : (ts : List Task) → RowsFit task_header (task_rows api ts s)
  unfolding task_rows
  task_rows-fit [] = tt
  task_rows-fit (t ∷ ts) = elim (Result-cases (api.get_task_state t s)) [
    | inr (x, e) ↦ rw (e, task_rows) tt
    | inl (state, e) ↦ elim (Result-cases (task_rows api ts s)) [
      | inr (x, f) ↦ rw (e, f, task_rows) tt
      | inl (rows, f) ↦ rw (e, f, task_rows) (refl, rw f at (task_rows-fit ts))
    ]
  ]

  module _ (lists : (q : TaskQueryOpts) → Returns (λ r. Unit) (api.list_tasks q s)) where
    tasks-IsPrinted :
        (by_host by_cluster by_deployment : String)
        → Returns IsPrinted (list_tasks api by_host by_cluster by_deployment s)
    unfolding list_tasks
    tasks-IsPrinted by_host by_cluster by_deployment =
        let q = scheduled_of api by_host by_cluster by_deployment in
        Returns-and_then (λ r. Unit) IsPrinted (api.list_tasks q s) _ (lists q)
          (elim [
            | err e ↦ λ u. tt
            | ok ts ↦ λ u. print_table-IsPrinted task_header (task_rows api ts s) (task_rows-fit ts)
          ])

    more_rows :
        (row : List Text) (r : Result (List (List Text)))
        → length row ≡ length host_header
        → RowsFit host_header r
        → RowsFit host_header (do rest ← r; ok (row ∷ rest))
    more_rows row (err e) l h = tt
    more_rows row (ok rows) l h = (l, h)

    host_rows-fit :
        (print_tags : Assoc String → String) (hs : List Host)
        → Returns (RowsFit host_header) (host_rows api print_tags hs s)
    unfolding host_rows
    host_rows-fit print_tags [] = tt
    host_rows-fit print_tags (h ∷ hs) =
        let q = record any_task { by_host = h.name } in
        Returns-and_then (λ r. Unit) (RowsFit host_header) (api.list_tasks q s) _ (lists q)
          (elim [
            | err e ↦ λ u. tt
            | ok ts ↦ λ u.
                Returns-and_then (RowsFit host_header) (RowsFit host_header)
                  (host_rows api print_tags hs s) _ (host_rows-fit print_tags hs)
                  (λ r f. more_rows (host_row print_tags h ts) r refl f)
          ])

    -- Where the listings of tasks come back, the listing of tasks and the listing of hosts come back
    -- with no panic, with an error or with a table whose lines are all of one length.
    pub listings_print :
        (by_host by_cluster by_deployment cluster : String) (print_tags : Assoc String → String)
        → Returns IsPrinted (list_tasks api by_host by_cluster by_deployment s)
          × Returns IsPrinted (list_hosts api print_tags cluster s)
    unfolding list_hosts
    listings_print by_host by_cluster by_deployment cluster print_tags = (
      tasks-IsPrinted by_host by_cluster by_deployment,
      elim (Result-cases (api.list_hosts cluster s)) [
        | inr (x, e) ↦ rw (e, list_hosts) tt
        | inl (hs, e) ↦
            rw (e, list_hosts)
              (Returns-and_then (RowsFit host_header) IsPrinted (host_rows api print_tags hs s) _
                (host_rows-fit print_tags hs) (λ r f. print_table-IsPrinted host_header r f))
      ],
    )
