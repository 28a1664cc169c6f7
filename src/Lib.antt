-- ===== src/Lib.antt =====
-- provider-rabbitmq: a Crossplane provider that keeps queues, exchanges, bindings, virtual hosts,
-- users and permissions of a RabbitMQ server in the state that custom resources describe.
--
-- For each kind there is a controller with a connector, which makes a client of the server from a
-- provider config, and an external client, whose methods Observe, Create, Update and Delete the
-- reconciler of crossplane-runtime calls. Observe reads the server, refuses objects that are not
-- marked as the resource's own, fills unset fields of the spec from the answer (late initialization)
-- and compares the rest; Create and Update write the settings of the spec; Create also marks the
-- resource as managed and stores its external name.
--
--   Prelude      Boolean tests, lists and Go strings, shared by all modules. A string is the list of
--                its code points, a map the list of its entries in ascending order of the keys.
--   Go           What the code uses of Go's standard library: strconv.Atoi and decimal printing,
--                float64 as decoded from JSON and printed by %v, strings.Split, url.PathUnescape,
--                json.Marshal of string maps, base64.StdEncoding, and errors with their
--                chains.
--   Libraries    The functions of go-cmp and crossplane-runtime that are called: parameters, with
--                their documented behaviour as laws and one instance that has it.
--   Meta         internal/rabbitmqmeta/rabbitmq_meta.go: the mark of managed resources.
--   Client       internal/rabbitmqclient: the interface RabbitMQClient as a record of calls against
--                the state of a server, IsNotFoundError, and utilities.go. Client/Memory is a small
--                server for tests.
--   Handler      How a method runs: a state of the resource, the server and the count of response
--                bodies that are open; an end with a value, an error or a panic.
--   Connector    Connect of the controllers and NewClient.
--   Queue, Exchange, Vhost, Permissions, User, Binding
--                internal/controller/namespaced/<kind>/<kind>.go with
--                apis/namespaced/core/v1alpha1/<kind>_types.go. In each, Types has the records,
--                Settings the pure functions, the module itself the methods; Agreement says when a
--                resource is up to date, Methods what the methods do on every path, Convergence what
--                an observation finds after a creation. User/Passwords resolves and checks
--                passwords, User/Server and Queue/Server are what a server promises of users
--                and of queues, and the Updates of a
--                kind what an observation finds after an update, its Stability what a second
--                observation finds; Vhost/Tags is about the tags of a virtual host,
--                Binding/Names about the external name of a binding, and Binding/Deletion about a
--                deletion after an observation.
--   Externals    The external clients behind the interface managed.ExternalClient: the laws that every
--                one keeps to, what they say of sequences of calls (a step relation), and the
--                connectors that return the clients, for the kinds in a namespace (Namespaced) and
--                those of the cluster (Cluster, internal/controller/cluster/<kind>/<kind>.go). Each
--                kind's External proves its laws.
--   Controllers  The set-up of the controllers: Setup has the functions Setup and SetupGated of the
--                twelve packages, Namespaced and Cluster their instances with register.go and
--                config/config.go of both scopes, Process has cmd/provider/main.go. Types has the
--                requests that they make of controller-runtime and crossplane-runtime, Scripts the
--                notion of a run that follows a list of requests, and Endings of one whose requests
--                end it with an error or a panic; Register, Scopes and Reviews are about one
--                controller, a scope and the review of permissions, Wiring about what callbacks
--                find, Serving about the process from the reviews on, and Startup about all of it.
--   Generator    hack/generate-cluster-scope.go: the module itself works on texts and paths, Walk has
--                the commands, as the changes of files that they make. Deletions is about the lines
--                that annotations delete, Comments about the generation comment, Backups and
--                Undoing about the files that are set aside and put back, Paths about those that
--                are generated, and Confinement about where the script writes.
--
-- Methods are state passing: each call of the client takes the server's state and returns its
-- answer, with the new state if it can write. A call answers with a response, whose body is then
-- open, or with an error and no response; so a response that comes together with an error is not
-- modelled, nor are contexts, logging and the fields of metadata that are never read. Recursion is
-- structural everywhere, so there is no fuel. Numbers of the server are decimal: an integer of less
-- than 16 digits is exact as a float64. The theorems on what a server stores ask for such numbers
-- among the arguments, and the round trip of arguments leaves the rounding of larger ones open.
-- A server is held to what RabbitMQ documents: the type of a queue is the one that its argument
-- x-queue-type names, and a binding is in the listing for the kind of its destination.
--
-- In the set-up, the answer to a request may depend on all requests before it. A logger and
-- a rate limiter are not part of a request, and the parsing of flags comes before the model. A gate
-- keeps callbacks as the Setup that they call and its options; which kinds are served while the
-- manager runs, and in which order, is a parameter.
--
-- Not modelled: the declarations of provider configs and generated code under apis, test doubles, and
-- command lines. Parameters are the RabbitMQ server, Kubernetes, controller-runtime, the usage
-- tracker, SHA sums, the decoding of credentials, and the file system of the generator.
pub mod Prelude
pub mod Go
pub mod Libraries
pub mod Meta
pub mod Client
pub mod Handler
pub mod Connector
pub mod Externals
pub mod Generator
pub mod Controllers
pub mod Queue
pub mod Vhost
pub mod Permissions
pub mod Binding
pub mod Exchange
pub mod User
