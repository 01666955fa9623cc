-- ===== src/Lib.antt =====
-- A model of the custom component sophos_firewall for Home Assistant
-- (custom_components/sophos_firewall), which reads a Sophos firewall over its XML API and over SNMP,
-- and writes firewall rules, web filter policies, URL groups and IP host groups.
--
-- The parts. SophosClient (sophos_client.py) sends XML requests and turns the answers into records
-- (models.py). SNMPClient (snmp_client.py) reads scalar objects and tables. Two coordinators
-- (coordinator.py) fetch their endpoints in tiers and keep the data. Entities (entity.py, switch.py)
-- show the data; a switch writes through a client and asks its coordinator to read the endpoint again.
-- Actions (services.py) write through the same client. The config flow (config_flow.py) tests a connection
-- before it stores it, and __init__.py migrates old entries and reloads an entry whose settings changed.
--
-- The files:
-- - Prelude: names passed on, tests, lists, and Python's dict as an association list (Dict).
-- - Text: the methods of str that the client calls. lower and isdigit know the ASCII characters.
-- - Xml: elements; Xml/Value is _elem_to_dict and its readers; Xml/Edits and Xml/Container are lemmas
--   on editing a child list in place.
-- - Models: the dataclasses of models.py that the other modules use.
-- - Client/Errors, Request, Answer: the exceptions, the requests with their bodies, the checks of
--   _post, _confirm and _get_record_element.
-- - Client/Action: an action takes the firewall's state and the requests sent so far. What the firewall
--   answers is a parameter, any function of the request and its state. sophos_client.py lets one
--   request at a time through and holds that slot over a read and the write that depends on it, so an
--   action is not interleaved with another one of this client.
-- - Client/Records, Reading, Writing, UrlGroup, HostGroup: the parsers and the methods of SophosClient;
--   Writing is _modify_record with the closures `change` and `verify` as functions on the record.
-- - Coordinator/Scheduler: TierScheduler. Coordinator/State: the fields of SophosCoordinator and its
--   operations on one endpoint. Coordinator/Fetch and Cycle: _fetch and _update, with the hooks of the
--   subclasses in a record Source, and what others do during a cycle in a record Surroundings.
-- - Coordinator/Xml and Snmp: the two subclasses; Snmp/Issue is _async_update_data of the latter.
-- - Switch: _SophosWriteSwitch; Switch/Kinds is what the four kinds show, Presses their writes.
-- - Entity: async_setup_dynamic_entities for one family by itself; Entity/Items are the callbacks that
--   give its items, Entity/Confirm and its children what runs of the listener remove, of objects that stay
--   missing and of tables that stay empty; Platform/Families/Refines carries a run over to the registry.
-- - Platform: the operations of entity.py on Home Assistant's entity registry, which is a list of the
--   config entry's entities. Platform/Families is async_setup_dynamic_entities for all the families of a
--   call, with the variables that its closures share; Platform/Setups and Sensors are async_setup_entry of
--   switch.py, binary_sensor.py and sensor.py, Platform/Identity what the entities' constructors set.
-- - SnmpClient: Udp is one exchange with the agent, with its retries, Operations the walks and gets that
--   use it, with _all_or_nothing as tasks that happenings end. SnmpClient itself is the conversion of
--   values; Table and Rows are the rows of tables and the data of the endpoints that walk them, Scalars and
--   Modules those that read single objects.
-- - Sensor (sensor.py): States are the enumerations with the log of unknown values, Summary the counts of
--   services and licenses, Uptime the boot time, Interfaces the traffic sensors, Readings all others,
--   Platform the suffixes of those that are created and of those that are removed without SNMP.
--   BinarySensor (binary_sensor.py): what each shows, and the source of an interface's state.
--   Attributes is what the entities of both show beside their states.
-- - Setup (__init__.py): Options is async_migrate_entry, UniqueIds _migrate_unique_ids over any entity
--   registry (a record of its operations, with laws), Device _async_update_device, Entry async_setup_entry
--   with what it opens and what the entry runs when it is unloaded.
-- - Diagnostics (diagnostics.py): the reports of the endpoints and of the XML data.
-- - Issues (issues.py): the repair issues, over any issue registry with laws.
-- - Services (services.py): Arguments are the checks of the actions' arguments, Calls the actions, which
--   call the methods of Client.
-- - ConfigFlow (config_flow.py): the sections of the last form and _flatten; Steps is the flow that sets
--   up an entry, as steps between forms, with an indexed type of the outcomes that are reached; Changes
--   are reauth_confirm and reconfigure with the update listener of __init__.py, Options the options flow.
-- - Tests: runs on concrete inputs.
--
-- Bounds: all loops are structural, there is no fuel. Times are natural numbers of milliseconds, boot
-- times are whole seconds, temperatures, rates and the processor's load are in tenths; a rate is rounded
-- from the exact quotient where the source divides floating-point numbers.
--
-- Not modelled: HTTP, the XML parser, puresnmp, asyncio, voluptuous, strptime, ipaddress and Home Assistant
-- itself, which are libraries and stand as parameters where something depends on them; the semaphores that
-- limit the requests in flight, and the loading of puresnmp (preload); messages of exceptions and of the
-- log; what the frontend shows of an entity beside its value, as its name and unit; the
-- redaction of sensitive keys in the diagnostics and the session's TLS settings; the rounding of
-- powers to a decimal.
mod Prelude
pub mod BinarySensor
pub mod Attributes
pub mod Diagnostics
pub mod Sensor
pub mod ConfigFlow
pub mod Text
pub mod Xml
pub mod Models
pub mod Client
pub mod Coordinator
pub mod Switch
pub mod Entity
pub mod SnmpClient
pub mod Setup
pub mod Platform
pub mod Issues
pub mod Services
mod Tests
